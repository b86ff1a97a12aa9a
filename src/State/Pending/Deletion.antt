-- ===== src/State/Pending/Deletion.antt =====
-- What `delete_session` takes away, and what it leaves (src/state.rs).
use opencode_beacon.Prelude.{String, false, none, ◌≡◌, ◌≢◌, eq_iff, arith, Option-cases, inl, inr}
use opencode_beacon.Prelude.Maps.{
  Map, lookup, contains, lookup-remove, contains-set_remove, HasUniqueKeys,
}
use opencode_beacon.State.Record.{ServerState}
use opencode_beacon.State.Pending.{delete_session, requests_of, remove_all}
use opencode_beacon.State.Pending.Holds.{owned_by}
use opencode_beacon.State.Pending.Agrees.{lookup-remove_all, contains-requests_of}

deleted_requests :
    (index : Map String) (id request : String)
    → HasUniqueKeys index
    → owned_by (remove_all (requests_of id index) index) request id ≡ false
deleted_requests index id request u = ground (
  arith,
  lookup-remove_all (requests_of id index) request index,
  contains-requests_of id index request u,
)

kept_requests :
    (index : Map String) (id request other : String)
    → HasUniqueKeys index
    → id ≢ other
    → owned_by (remove_all (requests_of id index) index) request other
      ≡ owned_by index request other
kept_requests index id request other u differ = elim (Option-cases (lookup request index)) [
  | inl e ↦ ground (
    arith,
    lookup-remove_all (requests_of id index) request index,
    contains-requests_of id index request u,
  )
  | inr (o, e) ↦ ground (
    arith,
    lookup-remove_all (requests_of id index) request index,
    contains-requests_of id index request u,
    eq_iff o id,
    eq_iff o other,
  )
]

module _ (s : ServerState) (id : String) (permissions_unique : HasUniqueKeys s.permissions)
    (questions_unique : HasUniqueKeys s.questions) where
  -- After the deletion of a session, where each request has one entry, there is no session with
  -- its identifier, no request is pending for it, and it is not armed.
  pub delete_session_removes :
      (request : String)
      → (lookup id (delete_session s id).sessions ≡ none)
        × (owned_by (delete_session s id).permissions request id ≡ false)
        × (owned_by (delete_session s id).questions request id ≡ false)
        × (contains (delete_session s id).ready_armed id ≡ false)
  unfolding delete_session
  delete_session_removes request = (
    ground (arith, lookup-remove id id s.sessions, eq_iff id id),
    deleted_requests s.permissions id request permissions_unique,
    deleted_requests s.questions id request questions_unique,
    ground (arith, contains-set_remove id id s.ready_armed, eq_iff id id),
  )

  -- Every other session keeps its record, its pending requests and its arm.
  pub delete_session_keeps :
      (other request : String)
      → id ≢ other
      → (lookup other (delete_session s id).sessions ≡ lookup other s.sessions)
        × (owned_by (delete_session s id).permissions request other
            ≡ owned_by s.permissions request other)
        × (owned_by (delete_session s id).questions request other
            ≡ owned_by s.questions request other)
        × (contains (delete_session s id).ready_armed other ≡ contains s.ready_armed other)
  unfolding delete_session
  delete_session_keeps other request differ = (
    ground (arith, lookup-remove id other s.sessions, eq_iff id other),
    kept_requests s.permissions id request other permissions_unique differ,
    kept_requests s.questions id request other questions_unique differ,
    ground (arith, contains-set_remove id other s.ready_armed, eq_iff id other),
  )
