-- ===== src/Monitor/Connection/Delivered.antt =====
-- The events that a server's task hands on as observed, against those that it reads from the
-- stream (src/monitor.rs).
use mathlib.Core.List.{append_assoc, append-nil}
use opencode_beacon.Prelude.{
  ℕ, String, Bool, true, false, List, [], ◌∷◌, ◌++◌, map, ◌==◌, if◌then◌else◌, ◌≡◌, refl, sym, not,
  ◌∙◌, ap, Bool-cases, inl, inr, Option-cases,
}
use opencode_beacon.Model.{
  ServerEndpoint, WireEvent, ObservedEvent, StateTransition, AttentionEvent,
}
use opencode_beacon.Events.{BeaconEvent, initial_state, observed, transition, attention}
use opencode_beacon.State.Record.{active_session_count}
use opencode_beacon.State.Json.{Json}
use opencode_beacon.State.Reduce.{
  StateUpdate, apply_event_with_updates, reconcile_replayed_with_updates,
}
use opencode_beacon.State.View.{observe}
use opencode_beacon.Monitor.Sink.{EventSink, send_all, SourceEvent, EventJournal}
use opencode_beacon.Monitor.Sink.Counts.{send_all_complete, send_all-closed}
use opencode_beacon.Monitor.Live.{
  ServerConnectionState, SnapshotResult, received, unavailable, snapshot_failed, updated, projected,
  is_state_event, live_events, handle_live_event, announce_snapshot, apply_reconciliation_result,
}

-- The observed event that a beacon event hands on, if it does.
unfoldable pub handed_on : BeaconEvent → List ObservedEvent
handed_on (observed endpoint o) = o ∷ []
handed_on _ = []

unfoldable pub delivered : List BeaconEvent → List ObservedEvent
unfolding handed_on
delivered [] = []
delivered (e ∷ es) = handed_on e ++ delivered es

pub delivered-append :
    (xs ys : List BeaconEvent) → delivered (xs ++ ys) ≡ delivered xs ++ delivered ys
unfolding delivered
delivered-append [] ys = refl
delivered-append (x ∷ xs) ys =
    ap (λ zs. handed_on x ++ zs) (delivered-append xs ys)
    ∙ sym (append_assoc (handed_on x) (delivered xs) (delivered ys))

module _ (endpoint : ServerEndpoint) where
  delivered-transitions :
      (ts : List StateTransition) → delivered (map (transition endpoint) ts) ≡ []
  unfolding delivered
  delivered-transitions [] = refl
  delivered-transitions (t ∷ ts) = delivered-transitions ts

  delivered-attention :
      (events : List AttentionEvent) → delivered (map (attention endpoint) events) ≡ []
  unfolding delivered
  delivered-attention [] = refl
  delivered-attention (a ∷ events) = delivered-attention events

  delivered-updated : (u : StateUpdate) → delivered (updated endpoint u) ≡ []
  unfolding updated
  delivered-updated u =
      delivered-append (map (transition endpoint) u.transitions)
        (map (attention endpoint) u.attention)
      ∙ rw (delivered-transitions u.transitions, delivered-attention u.attention) refl

  delivered-projected : (c : ServerConnectionState) → delivered (projected endpoint c) ≡ []
  unfolding projected delivered
  delivered-projected c = elim (Option-cases c.instance_key_) [
    | inl e ↦ rw (e, projected) refl
    | inr (key, e) ↦ rw (e, projected) refl
  ]

  delivered-rest :
      (c : ServerConnectionState) (u : StateUpdate)
      → delivered (updated endpoint u ++ projected endpoint c) ≡ []
  delivered-rest c u =
      delivered-append (updated endpoint u) (projected endpoint c)
      ∙ rw (delivered-updated u, delivered-projected c) refl

delivered-seen :
    (b : Bool) (endpoint : ServerEndpoint) (o : ObservedEvent)
    → delivered (if b then [] else observed endpoint o ∷ []) ≡ (if b then [] else o ∷ [])
unfolding delivered
delivered-seen true endpoint o = refl
delivered-seen false endpoint o = refl

delivered-view :
    (b : Bool) (es : List BeaconEvent) → delivered es ≡ [] → delivered (if b then es else []) ≡ []
unfolding delivered
delivered-view true es h = h
delivered-view false es h = refl

module _ (j : Json) where
  open j use {Value}

  -- What is to be handed on for an event of the stream: heartbeats are not.
  unfoldable pub to_observe : WireEvent Value → List ObservedEvent
  unfolding observe
  to_observe event = if event.kind == "server.heartbeat" then [] else observe j event ∷ []

  unfoldable pub to_observe_all : List (SourceEvent Value) → List ObservedEvent
  unfolding to_observe
  to_observe_all [] = []
  to_observe_all (e ∷ es) = to_observe e.event ++ to_observe_all es

  pub to_observe_all-append :
      (xs ys : List (SourceEvent Value))
      → to_observe_all (xs ++ ys) ≡ to_observe_all xs ++ to_observe_all ys
  unfolding to_observe_all
  to_observe_all-append [] ys = refl
  to_observe_all-append (x ∷ xs) ys =
      ap (λ zs. to_observe x.event ++ zs) (to_observe_all-append xs ys)
      ∙ sym (append_assoc (to_observe x.event) (to_observe_all xs) (to_observe_all ys))

  module _ (endpoint : ServerEndpoint) where
    delivered-live_events :
        (c : ServerConnectionState) (event : WireEvent Value) (u : StateUpdate)
        → delivered (live_events j endpoint c event u) ≡ to_observe event
    unfolding live_events to_observe
    delivered-live_events c event u =
        let heartbeat = event.kind == "server.heartbeat" in
        let seen : List BeaconEvent =
          if heartbeat then [] else observed endpoint (observe j event) ∷ [] in
        let view = if is_state_event event then projected endpoint c else [] in
        delivered-append seen (updated endpoint u ++ view)
        ∙ ap (λ zs. delivered seen ++ zs)
            (delivered-append (updated endpoint u) view
              ∙ rw
                  (
                    delivered-updated endpoint u,
                    delivered-view (is_state_event event) (projected endpoint c)
                        (delivered-projected endpoint c),
                  )
                  refl)
        ∙ append-nil (delivered seen)
        ∙ delivered-seen heartbeat endpoint (observe j event)

    -- An event that is handled is handed on, unless the receiver closes.
    pub handle-delivered :
        (c : ServerConnectionState) (k : EventSink) (event : WireEvent Value)
        → (handle_live_event j endpoint c k event).sent_all ≡ true
        → delivered (handle_live_event j endpoint c k event).sink.sent
          ≡ delivered k.sent ++ to_observe event
    unfolding handle_live_event
    handle-delivered c k event h =
        let applied = apply_event_with_updates j c.reducer event in
        let c' = record c { reducer = applied.1 } in
        let es = live_events j endpoint c' event applied.0 in
        ap delivered (send_all_complete es k h)
        ∙ delivered-append k.sent es
        ∙ ap (λ zs. delivered k.sent ++ zs) (delivered-live_events c' event applied.0)

    pub handle-closed :
        (c : ServerConnectionState) (k : EventSink) (event : WireEvent Value)
        → (handle_live_event j endpoint c k event).sent_all ≡ false
        → (handle_live_event j endpoint c k event).sink.room ≡ 0
    unfolding handle_live_event
    handle-closed c k event h = send_all-closed _ k h

    -- Events that hand nothing on.
    pub delivered-quiet :
        (es : List BeaconEvent) (k : EventSink)
        → delivered es ≡ []
        → (send_all es k).1 ≡ true
        → delivered (send_all es k).0.sent ≡ delivered k.sent
    delivered-quiet es k quiet ok =
        ap delivered (send_all_complete es k ok)
        ∙ delivered-append k.sent es
        ∙ ap (λ zs. delivered k.sent ++ zs) quiet
        ∙ append-nil (delivered k.sent)

    initial_quiet : (n : ℕ) → delivered (initial_state endpoint n ∷ []) ≡ []
    unfolding delivered
    initial_quiet n = refl

    snapshot-delivered :
        (c : ServerConnectionState) (k : EventSink) (u : StateUpdate)
        → ((announce_snapshot j endpoint c k u).1 ≡ true
            → delivered (announce_snapshot j endpoint c k u).0.1.sent ≡ delivered k.sent)
          × ((announce_snapshot j endpoint c k u).1 ≡ false
              → (announce_snapshot j endpoint c k u).0.1.room ≡ 0)
    unfolding announce_snapshot
    snapshot-delivered c k u =
        let rest = updated endpoint u ++ projected endpoint c in
        let first = initial_state endpoint (active_session_count c.reducer) ∷ [] in
        let k' = (send_all first k).0 in
        elim (Bool-cases c.initialized) [
          | inl before ↦
              rw (before, announce_snapshot)
                (delivered-quiet rest k (delivered-rest endpoint c u), send_all-closed rest k)
          | inr first_time ↦ elim (Bool-cases (send_all first k).1) [
            | inr failed ↦
                rw (first_time, failed, announce_snapshot)
                  (λ e. cc, λ e. send_all-closed first k failed)
            | inl ok ↦
                rw (first_time, ok, announce_snapshot)
                  (
                    λ e.
                        delivered-quiet rest k' (delivered-rest endpoint c u) e
                        ∙ delivered-quiet first k (initial_quiet _) ok,
                    send_all-closed rest k',
                  )
          ]
        ]

    failed_quiet : (error : String) → delivered (snapshot_failed endpoint error ∷ []) ≡ []
    unfolding delivered
    failed_quiet error = refl

    -- A snapshot that is applied hands nothing on.
    pub result-delivered :
        (c : ServerConnectionState) (k : EventSink) (r : SnapshotResult) (n : EventJournal Value)
        → ((apply_reconciliation_result j endpoint c k r n).1 ≡ true
            → delivered (apply_reconciliation_result j endpoint c k r n).0.1.sent
              ≡ delivered k.sent)
          × ((apply_reconciliation_result j endpoint c k r n).1 ≡ false
              → (apply_reconciliation_result j endpoint c k r n).0.1.room ≡ 0)
    unfolding apply_reconciliation_result
    result-delivered c k (unavailable error) n =
        let es = snapshot_failed endpoint error ∷ [] in
        (delivered-quiet es k (failed_quiet error), send_all-closed es k)
    result-delivered c k (received snap) n =
        let applied =
          reconcile_replayed_with_updates j c.reducer snap (map (λ e. e.event) n.events)
            (not c.initialized) n.ready_emitted in
        snapshot-delivered (record c { reducer = applied.1 }) k applied.0
