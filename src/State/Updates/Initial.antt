-- ===== src/State/Updates/Initial.antt =====
-- What a first snapshot announces (`reconcile_replayed_with_updates`, `initial`).
use opencode_beacon.Prelude.{
  String, Bool, true, List, [], ◌∷◌, ◌≡◌, refl, arith, filter, not, All, All-append, some, is_some,
  ◌&&◌, count, Bool-cases, inl, inr, ◌==◌, eq_iff, count-append, if◌then◌else◌, ◌++◌, none,
}
use opencode_beacon.Prelude.Maps.{Map, lookup, contains, HasUniqueKeys}
use opencode_beacon.Prelude.Sort.{All-sort_by, count-sort_by}
use opencode_beacon.Model.{WireEvent, Snapshot, snapshot, AttentionEvent}
use opencode_beacon.State.Record.{ServerState, SessionRecord}
use opencode_beacon.State.Attention.{
  PendingKind, pending_permission, pending_question, attention_kind, attention_order,
  request_attention, attention_event, mark_seen, announce, unseen, entry_order, seen,
  new_snapshot_request_attention,
}
use opencode_beacon.State.Attention.Once.{
  announces, announces-request, kind_eq, to_nat, count-of_unique, count-filter_unseen,
}
use opencode_beacon.State.Frame.{SameData, trans, new_snapshot-SameData, disarm_initially-SameData}
use opencode_beacon.State.Seen.{candidate-SameSeen, seen-SameSeen}
use opencode_beacon.State.Json.{Json}
use opencode_beacon.State.Reduce.{reconcile_candidate, reconcile_replayed_with_updates, StateUpdate}
use opencode_beacon.State.Invariant.Steps.{candidate-IsWellFormed}

-- The pending requests of a kind.
abbrev pub pending : PendingKind → ServerState → Map String
pending pending_permission s = s.permissions
pending pending_question s = s.questions

-- What a first snapshot may announce: a request that is pending, for the session it is pending
-- for, marked as initial.
abbrev pub IsRequestNotice : ServerState → AttentionEvent → Type 0
IsRequestNotice s a =
    (a.initial ≡ true)
    × (a.source ≡ snapshot)
    × ((k : PendingKind) × (request : String) × (a.kind ≡ attention_kind k)
        × (a.request_id ≡ some request)
        × (lookup request (pending k s) ≡ some a.subject_session_id))

abbrev IsEntry : Map String → String × String → Type 0
IsEntry m e = lookup e.0 m ≡ some e.1

-- A further key hides no entry.
IsEntry-cons :
    (k v : String) (m : Map String) (es : List (String × String))
    → lookup k m ≡ none
    → All (IsEntry m) es
    → All (IsEntry ((k, v) ∷ m)) es
unfolding lookup
IsEntry-cons k v m [] new h = tt
IsEntry-cons k v m (e ∷ es) new h =
    (ground (arith, new, h.0, eq_iff k e.0), IsEntry-cons k v m es new h.1)

filter-IsEntry :
    (p : String × String → Bool) (m : Map String) → HasUniqueKeys m → All (IsEntry m) (filter p m)
unfolding filter lookup
filter-IsEntry p [] u = tt
filter-IsEntry p ((k, v) ∷ m) u =
    let rest = IsEntry-cons k v m (filter p m) u.0 (filter-IsEntry p m u.1) in
    elim (Bool-cases (p (k, v))) [
      | inl keep ↦ rw keep (ground (arith, eq_iff k k), rest)
      | inr drop ↦ rw drop rest
    ]

unseen-IsEntry :
    (known : List String) (m : Map String) → HasUniqueKeys m → All (IsEntry m) (unseen known m)
unfolding unseen
unseen-IsEntry known m u =
    All-sort_by entry_order (IsEntry m) _ (filter-IsEntry (λ e. not (contains known e.0)) m u)

announced-IsRequestNotice :
    (t : ServerState) (m : Map SessionRecord) (kind : PendingKind) (subject request : String)
    → lookup request (pending kind t) ≡ some subject
    → IsRequestNotice t (request_attention m kind subject request snapshot true)
unfolding request_attention attention_event
announced-IsRequestNotice t m kind subject request h = (refl, refl, (kind, request, refl, refl, h))

announce-IsRequestNotice :
    (t : ServerState) (kind : PendingKind) (entries : List (String × String)) (s : ServerState)
    → All (IsEntry (pending kind t)) entries
    → All (IsRequestNotice t) (announce kind true entries s).0
unfolding announce
announce-IsRequestNotice t kind [] s h = tt
announce-IsRequestNotice t kind ((r, owner) ∷ rest) s h = (
  announced-IsRequestNotice t s.sessions kind owner r h.0,
  announce-IsRequestNotice t kind rest (mark_seen kind r s) h.1,
)

-- How often the announcements of a list of requests name a request.
count-announce :
    (k kind : PendingKind) (id : String) (entries : List (String × String)) (s : ServerState)
    → count (announces k id) (announce kind true entries s).0
      ≡ (if kind_eq kind k then count (λ e. e.0 == id) entries else 0)
unfolding announce count
count-announce k kind id [] s = ground arith
count-announce k kind id ((r, owner) ∷ rest) s = ground (
  arith,
  announces-request s.sessions k kind owner r id snapshot true,
  count-announce k kind id rest (mark_seen kind r s),
)

count-unseen :
    (id : String) (known : List String) (m : Map String)
    → HasUniqueKeys m
    → count (λ e. e.0 == id) (unseen known m)
      ≡ to_nat (is_some (lookup id m) && not (contains known id))
unfolding unseen
count-unseen id known m u = ground (
  arith,
  count-sort_by entry_order (λ e. e.0 == id) (filter (λ e. not (contains known e.0)) m),
  count-filter_unseen id known m,
  count-of_unique id m u,
)

module _ (j : Json) (s : ServerState) (snap : Snapshot) (events : List (WireEvent j.Value))
    (live_ready : List String) where
  abbrev candidate : ServerState
  candidate = reconcile_candidate j s snap events live_ready

  abbrev outcome : StateUpdate × ServerState
  outcome = reconcile_replayed_with_updates j s snap events true live_ready

  outcome-SameData : SameData outcome.1 candidate
  unfolding reconcile_replayed_with_updates
  outcome-SameData =
      trans (disarm_initially-SameData (new_snapshot_request_attention true candidate).1)
        (new_snapshot-SameData true candidate)

  abbrev new_questions : List (String × String)
  new_questions = unseen candidate.seen_questions candidate.questions

  abbrev new_permissions : List (String × String)
  new_permissions = unseen candidate.seen_permissions candidate.permissions

  announced_count :
      (k : PendingKind) (id : String)
      → count (announces k id) outcome.0.attention
        ≡ to_nat (is_some (lookup id (pending k candidate)) && not (contains (seen k candidate) id))
  unfolding reconcile_replayed_with_updates new_snapshot_request_attention count
  announced_count k id =
      let questions = announce pending_question true new_questions candidate in
      let permissions = announce pending_permission true new_permissions questions.1 in
      let v = candidate-IsWellFormed j s snap events live_ready in
      ground (
        arith,
        count-sort_by attention_order (announces k id) ((questions.0 ++ permissions.0) ++ []),
        count-append (announces k id) (questions.0 ++ permissions.0) [],
        count-append (announces k id) questions.0 permissions.0,
        count-announce k pending_question id new_questions candidate,
        count-announce k pending_permission id new_permissions questions.1,
        count-unseen id candidate.seen_questions candidate.questions v.questions_unique,
        count-unseen id candidate.seen_permissions candidate.permissions v.permissions_unique,
      )

  pending-outcome : (k : PendingKind) → pending k outcome.1 ≡ pending k candidate
  pending-outcome pending_permission = outcome-SameData.permissions
  pending-outcome pending_question = outcome-SameData.questions

  outcome-IsRequestNotice : All (IsRequestNotice outcome.1) outcome.0.attention
  unfolding reconcile_replayed_with_updates new_snapshot_request_attention
  outcome-IsRequestNotice =
      let v = candidate-IsWellFormed j s snap events live_ready in
      let questions = announce pending_question true new_questions candidate in
      All-sort_by attention_order (IsRequestNotice outcome.1) _ (
        All-append (IsRequestNotice outcome.1) _ []
          (All-append (IsRequestNotice outcome.1) questions.0 _
            (announce-IsRequestNotice outcome.1 pending_question new_questions candidate (
              rw outcome-SameData.questions
                (unseen-IsEntry candidate.seen_questions candidate.questions v.questions_unique)))
            (announce-IsRequestNotice outcome.1 pending_permission new_permissions questions.1 (
              rw outcome-SameData.permissions (
                unseen-IsEntry candidate.seen_permissions candidate.permissions
                  v.permissions_unique))))
          tt)

  -- The first snapshot of a connection announces requests alone, each marked as initial and each
  -- pending in the end for the session that it names: never that a root is ready, whatever was
  -- armed before and whatever events are replayed. Of each kind, the request with an identifier is
  -- announced once if it is pending in the end and was not announced before, and not otherwise.
  pub first_snapshot_silent :
      All (IsRequestNotice outcome.1) outcome.0.attention
      × ((k : PendingKind) (id : String)
          → count (announces k id) outcome.0.attention
            ≡ to_nat (is_some (lookup id (pending k outcome.1)) && not (contains (seen k s) id)))
  first_snapshot_silent = (
    outcome-IsRequestNotice,
    λ k id. rw (pending-outcome k) (
        rw (← seen-SameSeen k (candidate-SameSeen j s snap events live_ready))
          (announced_count k id)),
  )
