-- ===== src/State/Updates/Snapshots.antt =====
-- The ready announcements of a later snapshot (`reconcile_replayed_with_updates`).
use opencode_beacon.Prelude.{
  String, Bool, false, List, [], ◌∷◌, ◌≡◌, refl, ◌∙◌, arith, any, not, ◌&&◌, ◌||◌, ap, filter,
  is_some_and, any-append,
}
use opencode_beacon.Prelude.Maps.{
  contains, contains-set_extend, contains-filter, set_extend, lookup, HasUniqueKeys,
}
use opencode_beacon.Model.{WireEvent, Snapshot, snapshot}
use opencode_beacon.State.Record.{ServerState, default_state}
use opencode_beacon.State.Pending.{upsert_permission, upsert_question}
use opencode_beacon.State.Attention.{
  PendingKind, mark_seen, announce, unseen, pending_permission, pending_question,
  new_snapshot_request_attention,
}
use opencode_beacon.State.Ready.{
  normalize_ready_arms, arm_busy_roots, busy_roots, root_is_effectively_idle, is_root_record,
}
use opencode_beacon.State.Ready.Exact.{says_ready}
use opencode_beacon.State.Frame.{SameData, trans, take_ready-SameData, new_snapshot-SameData}
use opencode_beacon.State.Json.{Json}
use opencode_beacon.State.Reduce.{
  fold, put_session, put_status, install_snapshot, replay, reconcile_candidate,
  reconcile_replayed_with_updates, StateUpdate,
}
use opencode_beacon.State.Invariant.{default-IsWellFormed}
use opencode_beacon.State.Invariant.Steps.{candidate-IsWellFormed, install_snapshot-IsWellFormed}
use opencode_beacon.State.Updates.Quiet.{
  is_known_root, is_busy_root, contains-busy_roots, busy_is_not_idle, request_says_nothing,
}
use opencode_beacon.State.Updates.Journal.{deletes, armed-replay}
use opencode_beacon.State.Updates.Ready.{taken_ready, roots-SameData}

announce-says_nothing :
    (kind : PendingKind) (initial : Bool) (entries : List (String × String)) (s : ServerState)
    (id : String)
    → (any (says_ready id) (announce kind initial entries s).0 ≡ false)
      × ((announce kind initial entries s).1.ready_armed ≡ s.ready_armed)
unfolding announce any
announce-says_nothing kind initial [] s id = (refl, refl)
announce-says_nothing pending_permission initial ((r, owner) ∷ rest) s id =
    let next = mark_seen pending_permission r s in
    ground (
      arith,
      request_says_nothing s.sessions pending_permission owner r id snapshot initial,
      announce-says_nothing pending_permission initial rest next id,
    )
announce-says_nothing pending_question initial ((r, owner) ∷ rest) s id =
    let next = mark_seen pending_question r s in
    ground (
      arith,
      request_says_nothing s.sessions pending_question owner r id snapshot initial,
      announce-says_nothing pending_question initial rest next id,
    )

new_snapshot-says_nothing :
    (initial : Bool) (s : ServerState) (id : String)
    → (any (says_ready id) (new_snapshot_request_attention initial s).0 ≡ false)
      × ((new_snapshot_request_attention initial s).1.ready_armed ≡ s.ready_armed)
unfolding new_snapshot_request_attention
new_snapshot-says_nothing initial s id =
    let questions = announce pending_question initial (unseen s.seen_questions s.questions) s in
    let entries = unseen s.seen_permissions s.permissions in
    let permissions = announce pending_permission initial entries questions.1 in
    ground (
      arith,
      any-append (says_ready id) questions.0 permissions.0,
      announce-says_nothing pending_question initial (unseen s.seen_questions s.questions) s id,
      announce-says_nothing pending_permission initial entries questions.1 id,
    )

fold-ready_armed {ℓ} :
    {A : Type ℓ} (f : ServerState → A → ServerState)
    → ((s : ServerState) (a : A) → (f s a).ready_armed ≡ s.ready_armed)
    → (as' : List A) (s : ServerState) → (fold f s as').ready_armed ≡ s.ready_armed
unfolding fold
fold-ready_armed f keep [] s = refl
fold-ready_armed f keep (a ∷ as') s = fold-ready_armed f keep as' (f s a) ∙ keep s a

ready_armed-install_snapshot :
    (s : ServerState) (snap : Snapshot) → (install_snapshot s snap).ready_armed ≡ s.ready_armed
unfolding install_snapshot put_session put_status upsert_permission upsert_question
ready_armed-install_snapshot s snap =
    let s1 = fold put_session s snap.sessions in
    let s2 = fold (λ s' e. put_status s' e.0 e.1) s1 snap.statuses in
    let s3 = fold upsert_permission s2 snap.permissions in
    fold-ready_armed upsert_question (λ t r. refl) snap.questions s3
    ∙ fold-ready_armed upsert_permission (λ t r. refl) snap.permissions s2
    ∙ fold-ready_armed (λ s' e. put_status s' e.0 e.1) (λ t r. refl) snap.statuses s1
    ∙ fold-ready_armed put_session (λ t r. refl) snap.sessions s

module _ (j : Json) (s : ServerState) (snap : Snapshot) (events : List (WireEvent j.Value))
    (live_ready : List String) (id : String) where
  abbrev emptied : ServerState
  emptied = record default_state {
    seen_permissions = s.seen_permissions;
    seen_questions = s.seen_questions;
    ready_armed = s.ready_armed;
  }

  -- The state that the snapshot alone describes.
  abbrev pub described : ServerState
  described = install_snapshot emptied snap

  armed_described : described.ready_armed ≡ s.ready_armed
  armed_described = ready_armed-install_snapshot emptied snap

  described_unique : HasUniqueKeys described.sessions
  described_unique =
      (install_snapshot-IsWellFormed emptied snap default-IsWellFormed).sessions_unique

  replayed_unique : HasUniqueKeys (replay j described events).sessions
  unfolding reconcile_candidate normalize_ready_arms arm_busy_roots
  replayed_unique = (candidate-IsWellFormed j s snap events live_ready).sessions_unique

  abbrev candidate : ServerState
  candidate = reconcile_candidate j s snap events live_ready

  armed_candidate : contains candidate.ready_armed id ≡ (
      (is_busy_root described id && not (contains live_ready id))
      || is_busy_root candidate id
      || (contains s.ready_armed id
          && not (any (deletes j id) events)
          && is_known_root candidate id))
  unfolding reconcile_candidate normalize_ready_arms arm_busy_roots is_busy_root is_known_root
  armed_candidate =
      let replayed = replay j described events in
      let kept =
        filter (λ k. is_some_and (lookup k replayed.sessions) is_root_record)
          replayed.ready_armed in
      let unheard = filter (λ k. not (contains live_ready k)) (busy_roots described.sessions) in
      ground (
        arith,
        contains-set_extend (busy_roots replayed.sessions) (set_extend unheard kept) id,
        contains-set_extend unheard kept id,
        contains-filter (λ k. not (contains live_ready k)) (busy_roots described.sessions) id,
        contains-filter (λ k. is_some_and (lookup k replayed.sessions) is_root_record)
            replayed.ready_armed id,
        contains-busy_roots described.sessions id described_unique,
        contains-busy_roots replayed.sessions id replayed_unique,
        armed-replay j events described id,
        ap (λ arms. contains arms id) armed_described,
      )

  -- The reconciliation, and the state after it.
  abbrev outcome : StateUpdate × ServerState
  outcome = reconcile_replayed_with_updates j s snap events false live_ready

  abbrev after : ServerState
  after = outcome.1

  after-SameData : SameData after candidate
  unfolding reconcile_replayed_with_updates
  after-SameData =
      trans (take_ready-SameData snapshot (new_snapshot_request_attention false candidate).1)
        (new_snapshot-SameData false candidate)

  facts :
      (any (says_ready id) outcome.0.attention
        ≡ (contains candidate.ready_armed id && root_is_effectively_idle after id))
      × (contains after.ready_armed id
          ≡ (contains candidate.ready_armed id && not (root_is_effectively_idle after id)))
  unfolding reconcile_replayed_with_updates
  facts =
      let requests = new_snapshot_request_attention false candidate in
      let (silent, arms) = new_snapshot-says_nothing false candidate id in
      taken_ready snapshot candidate requests.1 requests.0 id
        (new_snapshot-SameData false candidate) arms silent

  -- The root was not quiet before: the snapshot has it busy or retrying, and no live event has
  -- announced it since; or it was armed, no journaled event deletes it, and it is a root still.
  abbrev pub was_unquiet : Bool
  was_unquiet =
      (is_busy_root described id && not (contains live_ready id))
      || (contains s.ready_armed id && not (any (deletes j id) events) && is_known_root after id)

  -- A later snapshot, with the events journaled since and the roots that live events have
  -- announced meanwhile, says that a root is ready exactly if it is quiet in the end, with no
  -- request pending below it, and it was not quiet before: the snapshot itself has it as a busy or
  -- retrying root and no live event announced it, or it was armed before, no journaled event
  -- deletes it, and it is a known session without a parent in the end. Exactly those roots are
  -- armed afterwards that are busy or retrying in the end, or that were not quiet before in this
  -- sense and are not quiet in the end.
  pub snapshot_ready_exact :
      (any (says_ready id) outcome.0.attention ≡ (was_unquiet && root_is_effectively_idle after id))
      × (contains after.ready_armed id
          ≡ (is_busy_root after id || (was_unquiet && not (root_is_effectively_idle after id))))
  snapshot_ready_exact =
      ground
        (arith, facts, armed_candidate, roots-SameData after-SameData id, busy_is_not_idle after id)
