-- ===== src/Monitor/Connection/Counts.antt =====
-- How the events of an operation count under a test on attention events (src/monitor.rs).
use opencode_beacon.Prelude.{
  ℕ, ◌+◌, ◌≤◌, String, Bool, true, false, Option, List, [], ◌∷◌, ◌++◌, map, count, count-append,
  ◌==◌, if◌then◌else◌, ◌≡◌, refl, arith, Bool-cases, Option-cases, inl, inr,
}
use opencode_beacon.Model.{
  ServerEndpoint, WireEvent, StateTransition, AttentionEvent, ObservedEvent,
}
use opencode_beacon.Events.{
  BeaconEvent, ServerProjection, connected, disconnected, initial_state, observed, transition,
  attention, state_projection, diagnostic,
}
use opencode_beacon.State.Record.{active_session_count}
use opencode_beacon.State.Json.{Json}
use opencode_beacon.State.Reduce.{StateUpdate}
use opencode_beacon.State.View.{observe}
use opencode_beacon.Monitor.Sink.{EventSink, send_all, new_journal}
use opencode_beacon.Monitor.Sink.Counts.{count-send_all-le, count-send_all-none}
use opencode_beacon.Monitor.Live.{
  ServerConnectionState, SnapshotResult, received, unavailable, updated, projected, live_events,
  announce_snapshot, apply_reconciliation_result, apply_bootstrap_snapshot_result, is_state_event,
}

-- A test on events that is about attention events only, up to an initial state.
pub record IsAboutAttention (q : BeaconEvent → Bool) (p : AttentionEvent → Bool) : Type 0 where
  pub at_observed : (ep : ServerEndpoint) (o : ObservedEvent) → q (observed ep o) ≡ false
  pub at_transition : (ep : ServerEndpoint) (t : StateTransition) → q (transition ep t) ≡ false
  pub at_projection : (v : ServerProjection) → q (state_projection v) ≡ false
  pub at_diagnostic :
      (ep : Option ServerEndpoint) (m : String) (b : Bool) → q (diagnostic ep m b) ≡ false
  pub at_connected : (ep : ServerEndpoint) → q (connected ep) ≡ false
  pub at_disconnected : (ep : ServerEndpoint) (m : String) → q (disconnected ep m) ≡ false
  pub at_attention : (ep : ServerEndpoint) (a : AttentionEvent) → q (attention ep a) ≡ p a

module _ (q : BeaconEvent → Bool) (p : AttentionEvent → Bool) (about : IsAboutAttention q p)
    (endpoint : ServerEndpoint) where
  count-transitions : (ts : List StateTransition) → count q (map (transition endpoint) ts) ≡ 0
  unfolding count
  count-transitions [] = refl
  count-transitions (t ∷ ts) = ground (arith, about.at_transition endpoint t, count-transitions ts)

  count-attention :
      (events : List AttentionEvent) → count q (map (attention endpoint) events) ≡ count p events
  unfolding count
  count-attention [] = refl
  count-attention (a ∷ events) =
      ground (arith, about.at_attention endpoint a, count-attention events)

  pub count-updated : (u : StateUpdate) → count q (updated endpoint u) ≡ count p u.attention
  unfolding updated
  count-updated u = omega (
    arith,
    count-append q (map (transition endpoint) u.transitions) (map (attention endpoint) u.attention),
    count-transitions u.transitions,
    count-attention u.attention,
  )

  one_event : (e : BeaconEvent) → q e ≡ false → count q (e ∷ []) ≡ 0
  unfolding count
  one_event e h = ground (arith, h)

  no_event : count q [] ≡ 0
  unfolding count
  no_event = refl

  pub count-projected : (c : ServerConnectionState) → count q (projected endpoint c) ≡ 0
  unfolding projected
  count-projected c = elim (Option-cases c.instance_key_) [
    | inl e ↦ rw (e, projected) no_event
    | inr (key, e) ↦ rw (e, projected) (one_event _ (about.at_projection _))
  ]

  count-if :
      (b : Bool) (es : List BeaconEvent) → count q es ≡ 0 → count q (if b then [] else es) ≡ 0
  count-if true es h = no_event
  count-if false es h = h

  count-if_only :
      (b : Bool) (es : List BeaconEvent) → count q es ≡ 0 → count q (if b then es else []) ≡ 0
  count-if_only true es h = h
  count-if_only false es h = no_event

  pub count-live_events :
      (j : Json) (c : ServerConnectionState) (event : WireEvent j.Value) (u : StateUpdate)
      → count q (live_events j endpoint c event u) ≡ count p u.attention
  unfolding live_events
  count-live_events j c event u =
      let shown = observed endpoint (observe j event) in
      let seen : List BeaconEvent = if event.kind == "server.heartbeat" then [] else shown ∷ [] in
      let view = if is_state_event event then projected endpoint c else [] in
      omega (
        arith,
        count-append q seen (updated endpoint u ++ view),
        count-append q (updated endpoint u) view,
        count-updated u,
        count-if (event.kind == "server.heartbeat") (shown ∷ [])
            (one_event shown (about.at_observed endpoint (observe j event))),
        count-if_only (is_state_event event) (projected endpoint c) (count-projected c),
      )

  -- A snapshot sends its attention events, and no other that the test is about.
  pub announce_snapshot-le :
      (j : Json) (c : ServerConnectionState) (k : EventSink) (u : StateUpdate)
      → ((ep : ServerEndpoint) (n : ℕ) → q (initial_state ep n) ≡ false)
      → (count q (announce_snapshot j endpoint c k u).0.1.sent
          ≤ count q k.sent + count p u.attention)
        × ((announce_snapshot j endpoint c k u).0.0.reducer ≡ c.reducer)
  unfolding announce_snapshot
  announce_snapshot-le j c k u quiet =
      let rest = updated endpoint u ++ projected endpoint c in
      let first = initial_state endpoint (active_session_count c.reducer) ∷ [] in
      let k' = (send_all first k).0 in
      let total : count q rest ≡ count p u.attention = omega (
        arith,
        count-append q (updated endpoint u) (projected endpoint c),
        count-updated u,
        count-projected c,
      ) in
      let none_yet : count q first ≡ 0 =
        one_event _ (quiet endpoint (active_session_count c.reducer)) in
      elim (Bool-cases c.initialized) [
        | inl before ↦
            rw (before, announce_snapshot) (omega (arith, count-send_all-le q rest k, total), refl)
        | inr first_time ↦ elim (Bool-cases (send_all first k).1) [
          | inr failed ↦
              rw (first_time, failed, announce_snapshot)
                (omega (arith, count-send_all-none q first k none_yet), refl)
          | inl ok ↦
              rw (first_time, ok, announce_snapshot)
                (
                  omega (
                    arith,
                    count-send_all-none q first k none_yet,
                    count-send_all-le q rest k',
                    total,
                  ),
                  refl,
                )
        ]
      ]

-- The first snapshot of a connection is applied as a reconciliation with nothing journaled.
pub bootstrap-reconciliation :
    (j : Json) (endpoint : ServerEndpoint) (c : ServerConnectionState) (k : EventSink)
    (r : SnapshotResult)
    → apply_bootstrap_snapshot_result j endpoint c k r
      ≡ apply_reconciliation_result j endpoint c k r new_journal
unfolding apply_bootstrap_snapshot_result apply_reconciliation_result
bootstrap-reconciliation j endpoint c k (received snap) = refl
bootstrap-reconciliation j endpoint c k (unavailable error) = refl
