-- ===== src/State/View.antt =====
-- What leaves the reducer without changing it: `projection`, `observe` and `error_detail`
-- (src/state.rs).
pub mod Projection
use Prim.Native.String.{◌++◌}
use opencode_beacon.Prelude.{
  String, Option, none, some, List, map, or_else, unwrap_or, if◌then◌else◌, ◌==◌, ◌>>=◌,
}
use opencode_beacon.Prelude.Order.{Cmp, order_by, str_cmp}
use opencode_beacon.Prelude.Sort.{sort_by}
use opencode_beacon.Model.{ProjectedSession, project_status, WireEvent, ObservedEvent}
use opencode_beacon.State.Record.{SessionRecord, ServerState}
use opencode_beacon.State.Json.{Json, string_field}
use opencode_beacon.State.Reduce.{info_id}

unfoldable pub project : String × SessionRecord → ProjectedSession
unfolding sort_by project_status
project (id, r) = record {
  id = id;
  title = r.title;
  slug = r.slug;
  parent_id = r.parent_id;
  project_id = r.project_id;
  directory = r.directory;
  workspace = r.workspace;
  updated = r.updated;
  status = project_status r.status;
  pending_permission_ids = sort_by str_cmp r.permissions;
  pending_question_ids = sort_by str_cmp r.questions;
}

unfoldable pub projected_order : Cmp ProjectedSession
unfolding order_by
projected_order = order_by (λ p. p.id) str_cmp

unfoldable pub projection : ServerState → List ProjectedSession
unfolding project sort_by projected_order
projection s = sort_by projected_order (map project s.sessions)

module _ (j : Json) where
  open j use {Value, get}

  unfoldable pub error_detail : Value → String
  unfolding string_field
  error_detail properties =
      let error = unwrap_or (get properties "error") properties in
      let name =
        or_else (or_else (string_field j error "name") (string_field j error "type"))
          (string_field j error "code") in
      let nested : Option String = (do inner ← get error "data"; string_field j inner "message") in
      let message = or_else (string_field j error "message") nested in
      elim name [
        | some n ↦ elim message [ some m ↦ n ++ ": " ++ m | none ↦ n ]
        | none ↦ unwrap_or message "unknown error"
      ]

  -- `ServerState::observe`
  unfoldable pub observe : WireEvent Value → ObservedEvent
  unfolding info_id string_field error_detail
  observe event = record {
    kind = event.kind;
    session_id = or_else (string_field j event.properties "sessionID") (info_id j event.properties);
    request_id =
        or_else (string_field j event.properties "requestID")
          (string_field j event.properties "id");
    detail =
        if event.kind == "session.error"
        then some (error_detail event.properties)
        else if event.kind == "permission.replied"
        then string_field j event.properties "reply"
        else none;
  }
