-- ===== src/Tests/Sample.antt =====
-- Concrete JSON values for the reducer: each is one of the shapes that the decoders accept.
use opencode_beacon.Prelude.{String, Option, none, some, [], ◌∷◌, ◌==◌, if◌then◌else◌}
use opencode_beacon.Model.{
  Session, SessionStatus, busy, idle, PermissionRequest, QuestionRequest, Snapshot, WireEvent,
}
use opencode_beacon.State.Json.{Json}

pub data Doc : Type 0 where
  text : String → Doc
  request : String → String → Doc
  status : String → SessionStatus → Doc
  info : Session → Doc

abbrev pub doc_get : Doc → String → Option Doc
doc_get (text s) key = none
doc_get (request id session_id) key =
    if key == "id"
    then some (text id)
    else if key == "requestID"
    then some (text id)
    else if key == "sessionID"
    then some (text session_id)
    else none
doc_get (status session_id s) key = if key == "sessionID" then some (text session_id) else none
doc_get (info s) key =
    if key == "info" then some (info s) else if key == "id" then some (text s.id) else none

abbrev pub doc_text : Doc → Option String
doc_text (text s) = some s
doc_text _ = none

abbrev pub doc_session : Doc → Option Session
doc_session (info s) = some s
doc_session _ = none

abbrev pub doc_permission : Doc → Option PermissionRequest
doc_permission (request id session_id) = some (record { id = id; session_id = session_id })
doc_permission _ = none

abbrev pub doc_question : Doc → Option QuestionRequest
doc_question (request id session_id) = some (record { id = id; session_id = session_id })
doc_question _ = none

abbrev pub doc_status : Doc → Option (String × SessionStatus)
doc_status (status session_id s) = some (session_id, s)
doc_status _ = none

abbrev pub sample : Json
sample = record {
  Value = Doc;
  get = doc_get;
  as_str = doc_text;
  session = doc_session;
  permission_request = doc_permission;
  question_request = doc_question;
  status_properties = doc_status;
}

abbrev pub root : Session
root = record {
  id = "ses_a";
  title = "Root";
  slug = "root";
  parent_id = none;
  project_id = none;
  directory = none;
  workspace = none;
  updated = none;
}

abbrev pub child : Session
child = record root { id = "ses_b"; title = "Child"; parent_id = some "ses_a" }

abbrev pub created_root : WireEvent Doc
created_root = record { kind = "session.created"; properties = info root }

abbrev pub created_child : WireEvent Doc
created_child = record { kind = "session.created"; properties = info child }

abbrev pub root_busy : WireEvent Doc
root_busy = record { kind = "session.status"; properties = status "ses_a" busy }

abbrev pub root_idle : WireEvent Doc
root_idle = record { kind = "session.status"; properties = status "ses_a" idle }

abbrev pub asked : WireEvent Doc
asked = record { kind = "permission.asked"; properties = request "per_1" "ses_b" }

abbrev pub replied : WireEvent Doc
replied = record { kind = "permission.replied"; properties = request "per_1" "ses_b" }

abbrev pub snap : Snapshot
snap = record {
  sessions = root ∷ child ∷ [];
  statuses = ("ses_a", busy) ∷ [];
  permissions = record { id = "per_1"; session_id = "ses_b" } ∷ [];
  questions = [];
}
