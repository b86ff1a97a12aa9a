-- ===== src/State/Updates/Quiet.antt =====
-- When an update says that a root is ready, and which roots stay armed.
use opencode_beacon.Prelude.{
  String, Bool, true, false, Option, none, some, [], ◌∷◌, ◌≡◌, refl, arith, any, ◌&&◌, ◌||◌, eq_iff,
  is_some_and, filter, Option-cases, or_else, inl, inr, ◌≢◌,
}
use opencode_beacon.Prelude.Maps.{
  Map, lookup, contains, HasUniqueKeys, contains-filter, contains-set_extend, lookup-remove,
  contains-set_remove,
}
use opencode_beacon.Model.{live, TransitionSource}
use opencode_beacon.State.Record.{SessionRecord, ServerState}
use opencode_beacon.State.Attention.{
  NewRequest, PendingKind, pending_permission, pending_question, attention_event, request_attention,
  new_live_request_attention,
}
use opencode_beacon.State.Ready.{
  normalize_ready_arms, arm_busy_roots, busy_roots, is_root_record, is_active,
  root_is_effectively_idle,
}
use opencode_beacon.State.Ready.Exact.{says_ready}
use opencode_beacon.State.Frame.{SameData}
use opencode_beacon.State.Json.{Json, string_field}
use opencode_beacon.State.Pending.{delete_session}
use opencode_beacon.State.Reduce.{
  announce_live, apply_kind, EventKind, session_deleted, apply_deleted, info_id,
}

-- A session with known metadata and no parent; and one that is busy or retrying besides.
unfoldable pub is_known_root : ServerState → String → Bool
unfolding lookup
is_known_root s id = is_some_and (lookup id s.sessions) is_root_record

unfoldable pub is_busy_root : ServerState → String → Bool
unfolding lookup
is_busy_root s id = is_some_and (lookup id s.sessions) (λ r. is_root_record r && is_active r.status)

pub contains-busy_roots :
    (m : Map SessionRecord) (id : String)
    → HasUniqueKeys m
    → contains (busy_roots m) id
      ≡ is_some_and (lookup id m) (λ r. is_root_record r && is_active r.status)
unfolding busy_roots contains lookup filter
contains-busy_roots [] id u = refl
contains-busy_roots ((k, r) ∷ m) id u = ground (arith, contains-busy_roots m id u.1, eq_iff k id)

-- The arms once `normalize_ready_arms` and `arm_busy_roots` have run.
pub contains-armed :
    (s : ServerState) (id : String)
    → HasUniqueKeys s.sessions
    → contains (arm_busy_roots (normalize_ready_arms s)).ready_armed id
      ≡ (is_busy_root s id || (contains s.ready_armed id && is_known_root s id))
unfolding normalize_ready_arms arm_busy_roots is_known_root is_busy_root
contains-armed s id u = ground (
  arith,
  contains-set_extend (busy_roots s.sessions)
      (filter (λ k. is_some_and (lookup k s.sessions) is_root_record) s.ready_armed) id,
  contains-filter (λ k. is_some_and (lookup k s.sessions) is_root_record) s.ready_armed id,
  contains-busy_roots s.sessions id u,
)

pub idle-SameData :
    {s t : ServerState}
    → SameData s t
    → (id : String) → root_is_effectively_idle s id ≡ root_is_effectively_idle t id
unfolding root_is_effectively_idle
idle-SameData same id = rw (same.sessions, same.permissions, same.questions)

pub busy_is_not_idle :
    (s : ServerState) (id : String)
    → is_busy_root s id ≡ true
    → root_is_effectively_idle s id ≡ false
unfolding is_busy_root root_is_effectively_idle
busy_is_not_idle s id h = ground arith

-- A request's announcement says nothing of readiness.
pub request_says_nothing :
    (m : Map SessionRecord) (k : PendingKind) (subject request id : String)
    (source : TransitionSource) (initial : Bool)
    → says_ready id (request_attention m k subject request source initial) ≡ false
unfolding says_ready request_attention attention_event
request_says_nothing m pending_permission subject request id source initial = refl
request_says_nothing m pending_question subject request id source initial = refl

deleted_arms :
    (s : ServerState) (k id : String)
    → (contains (delete_session s k).ready_armed id && is_known_root (delete_session s k) id)
      ≡ (contains s.ready_armed id && is_known_root (delete_session s k) id)
unfolding delete_session is_known_root
deleted_arms s k id =
    ground (arith, contains-set_remove k id s.ready_armed, lookup-remove k id s.sessions)

module _ (j : Json) where
  open j use {Value}

  apply_deleted_arms :
      (s : ServerState) (value : Value) (id : String)
      → (contains (apply_deleted j s value).ready_armed id
          && is_known_root (apply_deleted j s value) id)
        ≡ (contains s.ready_armed id && is_known_root (apply_deleted j s value) id)
  unfolding apply_deleted
  apply_deleted_arms s value id =
      elim (Option-cases (or_else (info_id j value) (string_field j value "sessionID"))) [
        | inl e ↦ rw (e, apply_deleted) refl
        | inr (k, e) ↦ rw (e, apply_deleted) (deleted_arms s k id)
      ]

  -- Only a deletion touches the arms.
  pub ready_armed-apply_kind :
      (s : ServerState) (k : EventKind) (value : Value)
      → k ≢ session_deleted
      → (apply_kind j s k value).0.ready_armed ≡ s.ready_armed
  unfolding apply_kind
  ready_armed-apply_kind s session_deleted value h = absurd (h refl)
  ready_armed-apply_kind s k value h = ground arith

  same_arms :
      (s t : ServerState) (id : String)
      → t.ready_armed ≡ s.ready_armed
      → (contains t.ready_armed id && is_known_root t id)
        ≡ (contains s.ready_armed id && is_known_root t id)
  same_arms s t id h = rw h

  pub kept_arms :
      (s : ServerState) (k : EventKind) (value : Value) (id : String)
      → (contains (apply_kind j s k value).0.ready_armed id
          && is_known_root (apply_kind j s k value).0 id)
        ≡ (contains s.ready_armed id && is_known_root (apply_kind j s k value).0 id)
  unfolding apply_kind
  kept_arms s session_deleted value id = apply_deleted_arms s value id
  kept_arms s k value id =
      same_arms s (apply_kind j s k value).0 id (ready_armed-apply_kind s k value (λ h. cc))

  pub announce_live-says_nothing :
      (s : ServerState) (r : Option NewRequest) (id : String)
      → (any (says_ready id) (announce_live j s r).0 ≡ false)
        × ((announce_live j s r).1.ready_armed ≡ s.ready_armed)
  unfolding announce_live new_live_request_attention any
  announce_live-says_nothing s none id = (refl, refl)
  announce_live-says_nothing s (some r) id = ground (
    arith,
    request_says_nothing s.sessions r.kind r.subject_session_id r.request_id id live false,
  )
