-- ===== src/State/Updates/Journal.antt =====
-- Which arms the events of a journal leave behind (`reconcile_candidate`).
use opencode_beacon.Prelude.{
  String, Bool, true, false, List, [], ◌∷◌, ◌≡◌, not, ◌&&◌, any, arith, Option-cases, or_else, inl,
  inr, is_some_and, ◌==◌, ◌||◌, ◌∙◌, ap,
}
use opencode_beacon.Prelude.Maps.{contains, contains-set_remove}
use opencode_beacon.Model.{WireEvent}
use opencode_beacon.State.Record.{ServerState}
use opencode_beacon.State.Json.{Json, string_field}
use opencode_beacon.State.Pending.{delete_session}
use opencode_beacon.State.Reduce.{
  EventKind, session_deleted, event_kind, info_id, apply_deleted, apply_kind, apply_event_core,
  replay, fold,
}
use opencode_beacon.State.Updates.Quiet.{ready_armed-apply_kind}

abbrev is_deletion : EventKind → Bool
is_deletion session_deleted = true
is_deletion _ = false

dropped_either : (a d r : Bool) → ((a && not d) && not r) ≡ (a && not (d || r))
dropped_either a d r = ground arith

module _ (j : Json) where
  open j use {Value}

  -- The session a value names, as `session.deleted` is read.
  abbrev names : Value → String → Bool
  names value id =
      is_some_and (or_else (info_id j value) (string_field j value "sessionID")) (λ k. k == id)

  -- The event deletes the session.
  unfoldable pub deletes : String → WireEvent Value → Bool
  deletes id event = is_deletion (event_kind event.kind) && names event.properties id

  armed-apply_deleted :
      (s : ServerState) (value : Value) (id : String)
      → contains (apply_deleted j s value).ready_armed id
        ≡ (contains s.ready_armed id && not (names value id))
  unfolding apply_deleted delete_session
  armed-apply_deleted s value id =
      elim (Option-cases (or_else (info_id j value) (string_field j value "sessionID"))) [
        | inl e ↦ rw (e, apply_deleted) (ground arith)
        | inr (k, e) ↦
            rw (e, apply_deleted) (ground (arith, contains-set_remove k id s.ready_armed))
      ]

  armed-apply_kind :
      (s : ServerState) (k : EventKind) (value : Value) (id : String)
      → contains (apply_kind j s k value).0.ready_armed id
        ≡ (contains s.ready_armed id && not (is_deletion k && names value id))
  unfolding apply_kind
  armed-apply_kind s session_deleted value id = armed-apply_deleted s value id
  armed-apply_kind s k value id = rw (ready_armed-apply_kind j s k value (λ h. cc)) (ground arith)

  pub armed-replay :
      (events : List (WireEvent Value)) (s : ServerState) (id : String)
      → contains (replay j s events).ready_armed id
        ≡ (contains s.ready_armed id && not (any (deletes id) events))
  unfolding replay fold any deletes apply_event_core
  armed-replay [] s id = ground arith
  armed-replay (e ∷ events) s id =
      let s' = (apply_kind j s (event_kind e.kind) e.properties).0 in
      armed-replay events s' id
      ∙ ap (λ b. b && not (any (deletes id) events))
          (armed-apply_kind s (event_kind e.kind) e.properties id)
      ∙ dropped_either (contains s.ready_armed id) (deletes id e) (any (deletes id) events)
