-- ===== src/State/Reduce.antt =====
-- The reducer: `apply_event_core` with the handlers that it calls, `install_snapshot`,
-- `transitions_from`, `apply_event_with_updates` and `reconcile_replayed_with_updates`
-- (src/state.rs).
pub mod Transitions
use opencode_beacon.Prelude.{
  String, Bool, false, Option, none, some, List, [], ◌∷◌, ◌++◌, map, not, ◌==◌, unwrap_or, or_else,
  filter, if◌then◌else◌, ◌>>=◌,
}
use opencode_beacon.Prelude.Order.{str_cmp}
use opencode_beacon.Prelude.Sort.{sort_by}
use opencode_beacon.Prelude.Maps.{Map, lookup, keys, modify, modify_entry, contains, set_extend}
use opencode_beacon.Model.{
  ActivityState, idle_activity, Session, SessionStatus, Snapshot, WireEvent, TransitionSource, live,
  snapshot, StateTransition, AttentionEvent,
}
use opencode_beacon.State.Record.{
  default_record, activity, update_metadata, ServerState, default_state, activity_eq,
}
use opencode_beacon.State.Pending.{
  upsert_permission, upsert_question, remove_permission, remove_question, delete_session,
}
use opencode_beacon.State.Attention.{
  NewRequest, pending_permission, pending_question, new_live_request_attention,
  new_snapshot_request_attention, attention_order,
}
use opencode_beacon.State.Ready.{
  normalize_ready_arms, arm_busy_roots, busy_roots, disarm_initially_idle_roots,
  take_ready_attention,
}
use opencode_beacon.State.Json.{Json, string_field}

pub record StateUpdate : Type 0 where
  pub transitions : List StateTransition
  pub attention : List AttentionEvent

-- `activities`
unfoldable pub activities : ServerState → Map ActivityState
unfolding activity
activities s = map (λ e. (e.0, activity e.1)) s.sessions

abbrev pub activity_in : Map ActivityState → String → ActivityState
activity_in m id = unwrap_or (lookup id m) idle_activity

-- The `filter_map` of `transitions_from`.
unfoldable pub changes :
    Map ActivityState → Map ActivityState → TransitionSource → List String → List StateTransition
unfolding activity_eq lookup
changes previous current source [] = []
changes previous current source (id ∷ ids) =
    let rest = changes previous current source ids in
    let old = activity_in previous id in
    let new = activity_in current id in
    if not (activity_eq old new)
    then record { session_id = id; previous = old; current = new; source = source } ∷ rest
    else rest

unfoldable pub transitions_from :
    Map ActivityState → TransitionSource → ServerState → List StateTransition
unfolding activities changes sort_by set_extend
transitions_from previous source s =
    let current = activities s in
    let ids = set_extend (keys previous ++ keys current) [] in
    changes previous current source (sort_by str_cmp ids)

unfoldable pub put_session : ServerState → Session → ServerState
unfolding modify_entry update_metadata
put_session s info = record s {
  sessions = modify_entry info.id default_record (update_metadata info) s.sessions;
}

unfoldable pub put_status : ServerState → String → SessionStatus → ServerState
unfolding modify_entry
put_status s id status = record s {
  sessions = modify_entry id default_record (λ r. record r { status = status }) s.sessions;
}

unfoldable pub fold {ℓ κ} : {S : Type ℓ} {A : Type κ} → (S → A → S) → S → List A → S
fold f s [] = s
fold f s (a ∷ as') = fold f (f s a) as'

unfoldable pub install_snapshot : ServerState → Snapshot → ServerState
unfolding fold put_session put_status upsert_permission upsert_question
install_snapshot s snap =
    let s1 = fold put_session s snap.sessions in
    let s2 = fold (λ s' e. put_status s' e.0 e.1) s1 snap.statuses in
    let s3 = fold upsert_permission s2 snap.permissions in fold upsert_question s3 snap.questions

-- The arms of the `match` on `event.kind`.
pub data EventKind : Type 0 where
  session_status session_info session_renamed session_deleted : EventKind
  permission_asked permission_replied question_asked question_done other_event : EventKind

unfoldable pub event_kind : String → EventKind
event_kind k =
    if k == "session.status"
    then session_status
    else if k == "session.created"
    then session_info
    else if k == "session.updated"
    then session_info
    else if k == "session.renamed"
    then session_renamed
    else if k == "session.deleted"
    then session_deleted
    else if k == "permission.asked"
    then permission_asked
    else if k == "permission.replied"
    then permission_replied
    else if k == "question.asked"
    then question_asked
    else if k == "question.replied"
    then question_done
    else if k == "question.rejected"
    then question_done
    else other_event

module _ (j : Json) where
  open j use {Value}

  unfoldable pub apply_status : ServerState → Value → ServerState
  unfolding put_status
  apply_status s properties = elim (j.status_properties properties) [
    | none ↦ s
    | some e ↦ put_status s e.0 e.1
  ]

  unfoldable pub apply_session_info : ServerState → Value → ServerState
  unfolding put_session
  apply_session_info s properties = elim (do info ← j.get properties "info"; j.session info) [
    | none ↦ s
    | some session ↦ put_session s session
  ]

  unfoldable pub rename_session : ServerState → Value → ServerState
  unfolding modify string_field
  rename_session s properties =
      let target : Option (String × String) = (do
        session_id ← string_field j properties "sessionID"
        title ← string_field j properties "title"
        some (session_id, title)) in
      elim target [
        | none ↦ s
        | some e ↦ record s { sessions = modify e.0 (λ r. record r { title = e.1 }) s.sessions }
      ]

  -- The identifier that `delete_session` and `observe` read.
  unfoldable pub info_id : Value → Option String
  unfolding string_field
  info_id properties = do info ← j.get properties "info"; string_field j info "id"

  unfoldable pub apply_deleted : ServerState → Value → ServerState
  unfolding delete_session info_id string_field
  apply_deleted s properties =
      elim (or_else (info_id properties) (string_field j properties "sessionID")) [
        | none ↦ s
        | some id ↦ delete_session s id
      ]

  unfoldable pub apply_replied :
      (ServerState → String → ServerState) → ServerState → Value → ServerState
  unfolding string_field
  apply_replied drop s properties = elim (string_field j properties "requestID") [
    | none ↦ s
    | some request_id ↦ drop s request_id
  ]

  unfoldable pub apply_kind : ServerState → EventKind → Value → ServerState × Option NewRequest
  unfolding apply_status apply_session_info rename_session apply_deleted apply_replied
      upsert_permission upsert_question remove_permission remove_question
  apply_kind s session_status v = (apply_status s v, none)
  apply_kind s session_info v = (apply_session_info s v, none)
  apply_kind s session_renamed v = (rename_session s v, none)
  apply_kind s session_deleted v = (apply_deleted s v, none)
  apply_kind s permission_asked v = elim (j.permission_request v) [
    | none ↦ (s, none)
    | some r ↦ (
      upsert_permission s r,
      some (record {
        kind = pending_permission;
        request_id = r.id;
        subject_session_id = r.session_id;
      }),
    )
  ]
  apply_kind s permission_replied v = (apply_replied remove_permission s v, none)
  apply_kind s question_asked v = elim (j.question_request v) [
    | none ↦ (s, none)
    | some r ↦ (
      upsert_question s r,
      some (record {
        kind = pending_question;
        request_id = r.id;
        subject_session_id = r.session_id;
      }),
    )
  ]
  apply_kind s question_done v = (apply_replied remove_question s v, none)
  apply_kind s other_event v = (s, none)

  unfoldable pub apply_event_core : ServerState → WireEvent Value → ServerState × Option NewRequest
  unfolding apply_kind event_kind
  apply_event_core s event = apply_kind s (event_kind event.kind) event.properties

  -- `new_request.and_then(|request| self.new_live_request_attention(request))`
  unfoldable pub announce_live : ServerState → Option NewRequest → List AttentionEvent × ServerState
  unfolding new_live_request_attention
  announce_live s none = ([], s)
  announce_live s (some r) =
      let (event, s') = new_live_request_attention s r in
      (elim event [ none ↦ [] | some a ↦ a ∷ [] ], s')

  unfoldable pub apply_event_with_updates :
      ServerState → WireEvent Value → StateUpdate × ServerState
  unfolding apply_event_core announce_live normalize_ready_arms arm_busy_roots take_ready_attention
      transitions_from sort_by attention_order
  apply_event_with_updates s event =
      let previous = activities s in
      let (s1, new_request) = apply_event_core s event in
      let s2 = arm_busy_roots (normalize_ready_arms s1) in
      let (requests, s3) = announce_live s2 new_request in
      let (ready, s4) = take_ready_attention live s3 in
      (
        record {
          transitions = transitions_from previous live s4;
          attention = sort_by attention_order (requests ++ ready);
        },
        s4,
      )

  unfoldable pub replay : ServerState → List (WireEvent Value) → ServerState
  unfolding fold apply_event_core
  replay = fold (λ s event. (apply_event_core s event).0)

  -- `a.difference(b)`
  abbrev pub difference : List String → List String → List String
  difference a b = filter (λ id. not (contains b id)) a

  -- The candidate that a snapshot and the events journaled since lead to, armed.
  unfoldable pub reconcile_candidate :
      ServerState → Snapshot → List (WireEvent Value) → List String → ServerState
  unfolding install_snapshot replay normalize_ready_arms arm_busy_roots busy_roots filter set_extend
      contains
  reconcile_candidate s snap events live_ready_emitted =
      let fresh = record default_state {
        seen_permissions = s.seen_permissions;
        seen_questions = s.seen_questions;
        ready_armed = s.ready_armed;
      } in
      let installed = install_snapshot fresh snap in
      let snapshot_busy_roots = busy_roots installed.sessions in
      let replayed = normalize_ready_arms (replay installed events) in
      arm_busy_roots (record replayed {
        ready_armed =
            set_extend (difference snapshot_busy_roots live_ready_emitted) replayed.ready_armed;
      })

  unfoldable pub reconcile_replayed_with_updates :
      ServerState
      → Snapshot
      → List (WireEvent Value)
      → Bool
      → List String
      → StateUpdate × ServerState
  unfolding reconcile_candidate new_snapshot_request_attention disarm_initially_idle_roots
      take_ready_attention transitions_from sort_by attention_order
  reconcile_replayed_with_updates s snap events initial live_ready_emitted =
      let previous = activities s in
      let candidate = reconcile_candidate s snap events live_ready_emitted in
      let (requests, s1) = new_snapshot_request_attention initial candidate in
      let (ready, s2) =
        if initial
        then ([], disarm_initially_idle_roots s1)
        else take_ready_attention snapshot s1 in
      (
        record {
          transitions = transitions_from previous snapshot s2;
          attention = sort_by attention_order (requests ++ ready);
        },
        s2,
      )

  -- `reconcile_with_updates`
  abbrev pub reconcile_with_updates : ServerState → Snapshot → Bool → StateUpdate × ServerState
  reconcile_with_updates s snap initial = reconcile_replayed_with_updates s snap [] initial []

  -- `reconcile` and `apply_event`
  abbrev pub reconcile : ServerState → Snapshot → List StateTransition × ServerState
  reconcile s snap =
      let (update, s') = reconcile_with_updates s snap false in (update.transitions, s')

  abbrev pub apply_event : ServerState → WireEvent Value → List StateTransition × ServerState
  apply_event s event =
      let (update, s') = apply_event_with_updates s event in (update.transitions, s')
