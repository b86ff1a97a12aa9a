-- ===== src/State/Invariant/Steps.antt =====
-- A live event and a reconciliation keep the state well-formed, whatever they carry.
use opencode_beacon.Model.{live, snapshot}
use opencode_beacon.State.Ready.{normalize_ready_arms, arm_busy_roots}
use opencode_beacon.State.Frame.{
  SameData-IsWellFormed, take_ready-SameData, announce_live-SameData, disarm_initially-SameData,
  new_snapshot-SameData,
}
use opencode_beacon.State.Reduce.{
  apply_event_core, apply_event_with_updates, reconcile_candidate, reconcile_replayed_with_updates,
  announce_live, install_snapshot,
}
use opencode_beacon.State.Attention.{new_snapshot_request_attention}
use opencode_beacon.State.Record.{default_state}
use opencode_beacon.Prelude.{
  String, List, [], ◌∷◌, refl, Option-cases, or_else, ◌>>=◌, inl, inr, Bool, true, false,
}
use opencode_beacon.Model.{WireEvent, Snapshot}
use opencode_beacon.State.Record.{ServerState}
use opencode_beacon.State.Json.{Json, string_field}
use opencode_beacon.State.Reduce.{
  EventKind, session_status, session_info, session_renamed, session_deleted, permission_asked,
  permission_replied, question_asked, question_done, other_event, fold, install_snapshot,
  event_kind, apply_status, apply_session_info, rename_session, apply_deleted, apply_replied,
  apply_kind, apply_event_core, replay, put_session, put_status, info_id, reconcile_candidate,
  apply_event_with_updates, reconcile_replayed_with_updates,
}
use opencode_beacon.State.Pending.{
  upsert_permission, upsert_question, remove_permission, remove_question,
}
use opencode_beacon.State.Invariant.{IsWellFormed, modify-IsIndexed, default-IsWellFormed}
use opencode_beacon.State.Invariant.Operations.{
  put_session-IsWellFormed, put_status-IsWellFormed, delete_session-IsWellFormed,
  upsert_permission-IsWellFormed, upsert_question-IsWellFormed, remove_permission-IsWellFormed,
  remove_question-IsWellFormed,
}

fold-keeps {ℓ κ μ} :
    {S : Type ℓ} {A : Type κ} (P : S → Type μ) (f : S → A → S)
    → ((s : S) → P s → (a : A) → P (f s a))
    → (as' : List A) (s : S) → P s
    → P (fold f s as')
unfolding fold
fold-keeps P f keep [] s h = h
fold-keeps P f keep (a ∷ as') s h = fold-keeps P f keep as' (f s a) (keep s h a)

pub install_snapshot-IsWellFormed :
    (s : ServerState) (snap : Snapshot) → IsWellFormed s → IsWellFormed (install_snapshot s snap)
unfolding install_snapshot
install_snapshot-IsWellFormed s snap v =
    fold-keeps IsWellFormed upsert_question upsert_question-IsWellFormed snap.questions _ (
      fold-keeps IsWellFormed upsert_permission upsert_permission-IsWellFormed snap.permissions _ (
        fold-keeps IsWellFormed (λ s' e. put_status s' e.0 e.1)
          (λ s' v' e. put_status-IsWellFormed s' v' e.0 e.1) snap.statuses _
          (fold-keeps IsWellFormed put_session put_session-IsWellFormed snap.sessions s v)))

module _ (j : Json) where
  open j use {Value}

  module _ (s : ServerState) (value : Value) (v : IsWellFormed s) where
    apply_status-IsWellFormed : IsWellFormed (apply_status j s value)
    unfolding apply_status
    apply_status-IsWellFormed = elim (Option-cases (j.status_properties value)) [
      | inl e ↦ rw (e, apply_status) v
      | inr (a, e) ↦ rw (e, apply_status) (put_status-IsWellFormed s v a.0 a.1)
    ]

    apply_session_info-IsWellFormed : IsWellFormed (apply_session_info j s value)
    unfolding apply_session_info
    apply_session_info-IsWellFormed = elim (Option-cases (j.get value "info" >>= j.session)) [
      | inl e ↦ rw (e, apply_session_info) v
      | inr (a, e) ↦ rw (e, apply_session_info) (put_session-IsWellFormed s v a)
    ]

    rename_session-IsWellFormed : IsWellFormed (rename_session j s value)
    unfolding rename_session
    rename_session-IsWellFormed = elim (Option-cases (string_field j value "sessionID")) [
      | inl e ↦ rw (e, rename_session) v
      | inr (id, e) ↦ elim (Option-cases (string_field j value "title")) [
        | inl e' ↦ rw (e, e', rename_session) v
        | inr (title, e') ↦
            rw (e, e', rename_session)
              (modify-IsIndexed id (λ r. record r { title = title }) (λ r. refl) (λ r. refl) v)
      ]
    ]

    apply_deleted-IsWellFormed : IsWellFormed (apply_deleted j s value)
    unfolding apply_deleted
    apply_deleted-IsWellFormed =
        elim (Option-cases (or_else (info_id j value) (string_field j value "sessionID"))) [
          | inl e ↦ rw (e, apply_deleted) v
          | inr (id, e) ↦ rw (e, apply_deleted) (delete_session-IsWellFormed s v id)
        ]

    apply_replied-IsWellFormed :
        (drop : ServerState → String → ServerState)
        → ((r : String) → IsWellFormed (drop s r))
        → IsWellFormed (apply_replied j drop s value)
    unfolding apply_replied
    apply_replied-IsWellFormed drop keep = elim (Option-cases (string_field j value "requestID")) [
      | inl e ↦ rw (e, apply_replied) v
      | inr (r, e) ↦ rw (e, apply_replied) (keep r)
    ]

    pub apply_kind-IsWellFormed : (k : EventKind) → IsWellFormed (apply_kind j s k value).0
    unfolding apply_kind
    apply_kind-IsWellFormed session_status = apply_status-IsWellFormed
    apply_kind-IsWellFormed session_info = apply_session_info-IsWellFormed
    apply_kind-IsWellFormed session_renamed = rename_session-IsWellFormed
    apply_kind-IsWellFormed session_deleted = apply_deleted-IsWellFormed
    apply_kind-IsWellFormed permission_asked = elim (Option-cases (j.permission_request value)) [
      | inl e ↦ rw (e, apply_kind) v
      | inr (r, e) ↦ rw (e, apply_kind) (upsert_permission-IsWellFormed s v r)
    ]
    apply_kind-IsWellFormed permission_replied =
        apply_replied-IsWellFormed remove_permission (remove_permission-IsWellFormed s v)
    apply_kind-IsWellFormed question_asked = elim (Option-cases (j.question_request value)) [
      | inl e ↦ rw (e, apply_kind) v
      | inr (r, e) ↦ rw (e, apply_kind) (upsert_question-IsWellFormed s v r)
    ]
    apply_kind-IsWellFormed question_done =
        apply_replied-IsWellFormed remove_question (remove_question-IsWellFormed s v)
    apply_kind-IsWellFormed other_event = v

  replay-IsWellFormed :
      (s : ServerState) (events : List (WireEvent Value))
      → IsWellFormed s
      → IsWellFormed (replay j s events)
  unfolding replay apply_event_core
  replay-IsWellFormed s events v =
      fold-keeps IsWellFormed (λ s' event. (apply_event_core j s' event).0)
        (λ s' v' event. apply_kind-IsWellFormed s' event.properties v' (event_kind event.kind))
        events s v

  -- Whatever event arrives, a well-formed state stays well-formed.
  pub apply_event-IsWellFormed :
      (s : ServerState) (event : WireEvent Value)
      → IsWellFormed s
      → IsWellFormed (apply_event_with_updates j s event).1
  unfolding apply_event_with_updates normalize_ready_arms arm_busy_roots apply_event_core
  apply_event-IsWellFormed s event v =
      let applied = apply_event_core j s event in
      let armed = arm_busy_roots (normalize_ready_arms applied.0) in
      let announced = (announce_live j armed applied.1).1 in
      SameData-IsWellFormed (take_ready-SameData live announced) (
        SameData-IsWellFormed (announce_live-SameData j armed applied.1)
          (apply_kind-IsWellFormed s event.properties v (event_kind event.kind)))

  pub candidate-IsWellFormed :
      (s : ServerState) (snap : Snapshot) (events : List (WireEvent Value)) (live' : List String)
      → IsWellFormed (reconcile_candidate j s snap events live')
  unfolding reconcile_candidate normalize_ready_arms arm_busy_roots
  candidate-IsWellFormed s snap events live' =
      let blank : ServerState = record default_state {
        seen_permissions = s.seen_permissions;
        seen_questions = s.seen_questions;
        ready_armed = s.ready_armed;
      } in
      replay-IsWellFormed (install_snapshot blank snap) events
        (install_snapshot-IsWellFormed blank snap default-IsWellFormed)

  -- After a reconciliation the state is well-formed, whatever it was before.
  pub reconcile-IsWellFormed :
      (s : ServerState) (snap : Snapshot) (events : List (WireEvent Value)) (initial : Bool)
      (live' : List String)
      → IsWellFormed (reconcile_replayed_with_updates j s snap events initial live').1
  unfolding reconcile_replayed_with_updates
  reconcile-IsWellFormed s snap events true live' =
      let candidate = reconcile_candidate j s snap events live' in
      SameData-IsWellFormed
        (disarm_initially-SameData (new_snapshot_request_attention true candidate).1)
        (SameData-IsWellFormed (new_snapshot-SameData true candidate)
          (candidate-IsWellFormed s snap events live'))
  reconcile-IsWellFormed s snap events false live' =
      let candidate = reconcile_candidate j s snap events live' in
      SameData-IsWellFormed
        (take_ready-SameData snapshot (new_snapshot_request_attention false candidate).1)
        (SameData-IsWellFormed (new_snapshot-SameData false candidate)
          (candidate-IsWellFormed s snap events live'))
