-- ===== src/State/Pending.antt =====
-- Pending requests: `upsert_permission`, `remove_permission`, `upsert_question`,
-- `remove_question`, and `delete_session` behind its parsing (src/state.rs).
pub mod Holds
pub mod Agrees
pub mod Deletion
use opencode_beacon.Prelude.{
  String, Option, none, some, List, [], ◌∷◌, filter, ◌==◌, not, if◌then◌else◌,
}
use opencode_beacon.Prelude.Maps.{
  Map, lookup, insert, remove, modify, modify_entry, keys, set_insert, set_remove,
}
use opencode_beacon.Model.{PermissionRequest, QuestionRequest}
use opencode_beacon.State.Record.{SessionRecord, default_record, ServerState}

unfoldable pub drop_permission : String → SessionRecord → SessionRecord
unfolding set_remove
drop_permission request_id r = record r { permissions = set_remove request_id r.permissions }

unfoldable pub add_permission : String → SessionRecord → SessionRecord
unfolding set_insert
add_permission request_id r = record r { permissions = set_insert request_id r.permissions }

unfoldable pub drop_question : String → SessionRecord → SessionRecord
unfolding set_remove
drop_question request_id r = record r { questions = set_remove request_id r.questions }

unfoldable pub add_question : String → SessionRecord → SessionRecord
unfolding set_insert
add_question request_id r = record r { questions = set_insert request_id r.questions }

-- The sessions once a request is no longer with the session that had it before.
unfoldable pub leave_previous :
    (SessionRecord → SessionRecord) → Option String → String → Map SessionRecord → Map SessionRecord
unfolding modify
leave_previous drop none session_id m = m
leave_previous drop (some previous) session_id m =
    if not (previous == session_id) then modify previous drop m else m

unfoldable pub upsert_permission : ServerState → PermissionRequest → ServerState
unfolding leave_previous add_permission drop_permission modify_entry insert lookup
upsert_permission s r =
    let previous = lookup r.id s.permissions in
    let moved = leave_previous (drop_permission r.id) previous r.session_id s.sessions in
    record s {
      permissions = insert r.id r.session_id s.permissions;
      sessions = modify_entry r.session_id default_record (add_permission r.id) moved;
    }

unfoldable pub upsert_question : ServerState → QuestionRequest → ServerState
unfolding leave_previous add_question drop_question modify_entry insert lookup
upsert_question s r =
    let previous = lookup r.id s.questions in
    let moved = leave_previous (drop_question r.id) previous r.session_id s.sessions in
    record s {
      questions = insert r.id r.session_id s.questions;
      sessions = modify_entry r.session_id default_record (add_question r.id) moved;
    }

-- `get_mut` on the session that had the request, if there was one
unfoldable pub leave_owner :
    (SessionRecord → SessionRecord) → Option String → Map SessionRecord → Map SessionRecord
unfolding modify
leave_owner drop none m = m
leave_owner drop (some owner) m = modify owner drop m

-- `remove_permission`, from the request's identifier
unfoldable pub remove_permission : ServerState → String → ServerState
unfolding leave_owner drop_permission remove lookup
remove_permission s request_id = record s {
  permissions = remove request_id s.permissions;
  sessions = leave_owner (drop_permission request_id) (lookup request_id s.permissions) s.sessions;
}

-- `remove_question`, from the request's identifier
unfoldable pub remove_question : ServerState → String → ServerState
unfolding leave_owner drop_question remove lookup
remove_question s request_id = record s {
  questions = remove request_id s.questions;
  sessions = leave_owner (drop_question request_id) (lookup request_id s.questions) s.sessions;
}

-- The requests of a session, and their removal one by one.
unfoldable pub requests_of : String → Map String → List String
unfolding filter
requests_of id m = keys (filter (λ e. e.1 == id) m)

unfoldable pub remove_all {ℓ} : {V : Type ℓ} → List String → Map V → Map V
unfolding remove
remove_all [] m = m
remove_all (k ∷ ks) m = remove_all ks (remove k m)

-- `delete_session`, from the session's identifier
unfoldable pub delete_session : ServerState → String → ServerState
unfolding requests_of remove_all remove set_remove
delete_session s id = record s {
  sessions = remove id s.sessions;
  permissions = remove_all (requests_of id s.permissions) s.permissions;
  questions = remove_all (requests_of id s.questions) s.questions;
  ready_armed = set_remove id s.ready_armed;
}
