-- ===== src/State/Seen.antt =====
-- Only the announcements touch the seen sets: everything else leaves them as they were.
use opencode_beacon.Prelude.{String, List, [], ◌∷◌, ◌≡◌, refl, ◌∙◌, arith}
use opencode_beacon.Model.{WireEvent, Snapshot, TransitionSource}
use opencode_beacon.Prelude.Maps.{set_remove}
use opencode_beacon.Prelude.Sort.{sort_by}
use opencode_beacon.Prelude.Order.{str_cmp}
use opencode_beacon.State.Record.{ServerState, default_state}
use opencode_beacon.State.Attention.{PendingKind, pending_permission, pending_question, seen}
use opencode_beacon.State.Pending.{upsert_permission, upsert_question}
use opencode_beacon.State.Ready.{
  normalize_ready_arms, arm_busy_roots, disarm, idle_armed, disarm_initially_idle_roots,
  take_ready_attention,
}
use opencode_beacon.State.Json.{Json}
use opencode_beacon.State.Reduce.{
  EventKind, session_status, fold, install_snapshot, event_kind, apply_kind, apply_event_core,
  replay, reconcile_candidate, put_session, put_status,
}

pub record SameSeen (s t : ServerState) : Type 0 where
  pub permissions : s.seen_permissions ≡ t.seen_permissions
  pub questions : s.seen_questions ≡ t.seen_questions

trans : {s t u : ServerState} → SameSeen s t → SameSeen t u → SameSeen s u
trans a b = record {
  permissions = a.permissions ∙ b.permissions;
  questions = a.questions ∙ b.questions;
}

pub seen-SameSeen : (k : PendingKind) {s t : ServerState} → SameSeen s t → seen k s ≡ seen k t
seen-SameSeen pending_permission same = same.permissions
seen-SameSeen pending_question same = same.questions

fold-SameSeen {ℓ} :
    {A : Type ℓ} (f : ServerState → A → ServerState)
    → ((s : ServerState) (a : A) → SameSeen (f s a) s)
    → (as' : List A) (s : ServerState) → SameSeen (fold f s as') s
unfolding fold
fold-SameSeen f keep [] s = record { permissions = refl; questions = refl }
fold-SameSeen f keep (a ∷ as') s = trans (fold-SameSeen f keep as' (f s a)) (keep s a)

pub disarm-SameSeen : (ids : List String) (s : ServerState) → SameSeen (disarm ids s) s
unfolding disarm
disarm-SameSeen [] s = record { permissions = refl; questions = refl }
disarm-SameSeen (id ∷ ids) s =
    let rest = disarm-SameSeen ids (record s { ready_armed = set_remove id s.ready_armed }) in
    record { permissions = rest.permissions; questions = rest.questions }

pub take_ready-SameSeen :
    (source : TransitionSource) (s : ServerState) → SameSeen (take_ready_attention source s).1 s
unfolding take_ready_attention
take_ready-SameSeen source s = disarm-SameSeen (sort_by str_cmp (idle_armed s)) s

pub disarm_initially-SameSeen : (s : ServerState) → SameSeen (disarm_initially_idle_roots s) s
unfolding disarm_initially_idle_roots
disarm_initially-SameSeen s = disarm-SameSeen (idle_armed s) s

install_snapshot-SameSeen :
    (s : ServerState) (snap : Snapshot) → SameSeen (install_snapshot s snap) s
unfolding install_snapshot put_session put_status upsert_permission upsert_question
install_snapshot-SameSeen s snap =
    let s1 = fold put_session s snap.sessions in
    let s2 = fold (λ s' e. put_status s' e.0 e.1) s1 snap.statuses in
    let s3 = fold upsert_permission s2 snap.permissions in
    trans
      (fold-SameSeen upsert_question (λ t r. record { permissions = refl; questions = refl })
        snap.questions s3)
      (trans
        (fold-SameSeen upsert_permission (λ t r. record { permissions = refl; questions = refl })
          snap.permissions s2)
        (trans
          (fold-SameSeen (λ t e. put_status t e.0 e.1)
            (λ t r. record { permissions = refl; questions = refl }) snap.statuses s1)
          (fold-SameSeen put_session (λ t r. record { permissions = refl; questions = refl })
            snap.sessions s)))

module _ (j : Json) where
  open j use {Value}

  apply_kind-SameSeen :
      (s : ServerState) (k : EventKind) (value : Value) → SameSeen (apply_kind j s k value).0 s
  unfolding apply_kind
  apply_kind-SameSeen s session_status value = ground arith
  apply_kind-SameSeen s k value = ground arith

  pub apply_event_core-SameSeen :
      (s : ServerState) (event : WireEvent Value) → SameSeen (apply_event_core j s event).0 s
  unfolding apply_event_core
  apply_event_core-SameSeen s event = apply_kind-SameSeen s (event_kind event.kind) event.properties

  replay-SameSeen :
      (s : ServerState) (events : List (WireEvent Value)) → SameSeen (replay j s events) s
  unfolding replay
  replay-SameSeen s events =
      fold-SameSeen (λ t event. (apply_event_core j t event).0) apply_event_core-SameSeen events s

  pub candidate-SameSeen :
      (s : ServerState) (snap : Snapshot) (events : List (WireEvent Value)) (live' : List String)
      → SameSeen (reconcile_candidate j s snap events live') s
  unfolding reconcile_candidate normalize_ready_arms arm_busy_roots
  candidate-SameSeen s snap events live' =
      let blank : ServerState = record default_state {
        seen_permissions = s.seen_permissions;
        seen_questions = s.seen_questions;
        ready_armed = s.ready_armed;
      } in
      let same =
        trans (replay-SameSeen (install_snapshot blank snap) events)
          (install_snapshot-SameSeen blank snap) in
      record { permissions = same.permissions; questions = same.questions }
