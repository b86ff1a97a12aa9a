-- ===== src/Monitor/Connection/Once.antt =====
-- Across the whole life of a server's task the initial state is announced once, and each request
-- at most once; the reducer's state is well-formed throughout (src/monitor.rs, src/state.rs).
use mathlib.Core.Path.{subst}
use opencode_beacon.Prelude.{
  ℕ, ◌≤◌, String, Bool, false, some, List, [], ◌∷◌, map, count, not, ◌≡◌, refl, arith, ap, sym,
}
use opencode_beacon.Model.{ServerEndpoint, WireEvent, InstanceKey}
use opencode_beacon.Events.{BeaconEvent, connected, disconnected, initial_state, attention}
use opencode_beacon.State.Attention.{PendingKind}
use opencode_beacon.State.Attention.Once.{announces, was_seen}
use opencode_beacon.State.Json.{Json}
use opencode_beacon.State.Reduce.{apply_event_with_updates, reconcile_replayed_with_updates}
use opencode_beacon.State.Updates.{apply_event_once, reconcile_once}
use opencode_beacon.Monitor.Pass.{DiscoveryCompletion}
use opencode_beacon.Monitor.Sink.{EventSink, EventJournal, new_journal}
use opencode_beacon.Monitor.Sink.Counts.{count-send_all-le, count-send_all-none}
use opencode_beacon.Monitor.Live.{
  ServerConnectionState, SnapshotResult, received, unavailable, snapshot_failed, live_events,
  handle_live_event, apply_reconciliation_result,
}
use opencode_beacon.Monitor.Connection.{Input, Server}
use opencode_beacon.Monitor.Connection.Keeps.{IsKept, step-Good}
use opencode_beacon.Monitor.Connection.Runs.{start_server, run, run-keeps}
use opencode_beacon.Monitor.Connection.Counts.{
  IsAboutAttention, count-live_events, announce_snapshot-le, bootstrap-reconciliation,
}

-- Whether an event announces the request.
unfoldable pub announces_request : PendingKind → String → BeaconEvent → Bool
announces_request kind id (attention endpoint a) = announces kind id a
announces_request kind id _ = false

announces_request-IsAboutAttention :
    (kind : PendingKind) (id : String)
    → IsAboutAttention (announces_request kind id) (announces kind id)
unfolding announces_request
announces_request-IsAboutAttention kind id = record {
  at_observed = λ ep o. refl;
  at_transition = λ ep t. refl;
  at_projection = λ v. refl;
  at_diagnostic = λ ep m b. refl;
  at_connected = λ ep. refl;
  at_disconnected = λ ep m. refl;
  at_attention = λ ep a. refl;
}

module _ (j : Json) (endpoint : ServerEndpoint) (kind : PendingKind) (id : String) where
  open j use {Value}

  abbrev told : BeaconEvent → Bool
  told = announces_request kind id

  abbrev about : IsAboutAttention told (announces kind id)
  about = announces_request-IsAboutAttention kind id

  quiet_event : (e : BeaconEvent) → told e ≡ false → count told (e ∷ []) ≡ 0
  unfolding count
  quiet_event e h = ground (arith, h)

  -- No more requests are told than are seen.
  abbrev Told : ServerConnectionState → EventSink → Type 0
  Told c k = count told k.sent ≤ was_seen kind id c.reducer

  initial_quiet : (ep : ServerEndpoint) (n : ℕ) → told (initial_state ep n) ≡ false
  unfolding announces_request
  initial_quiet ep n = refl

  on_event :
      (c : ServerConnectionState) (k : EventSink) (e : WireEvent Value)
      → Told c k
      → Told
          (handle_live_event j endpoint c k e).connection
          (handle_live_event j endpoint c k e).sink
  unfolding handle_live_event
  on_event c k e h =
      let applied = apply_event_with_updates j c.reducer e in
      let c' = record c { reducer = applied.1 } in
      omega (
        arith,
        h,
        count-send_all-le told (live_events j endpoint c' e applied.0) k,
        count-live_events told (announces kind id) about endpoint j c' e applied.0,
        apply_event_once j kind id c.reducer e,
      )

  on_result :
      (c : ServerConnectionState) (k : EventSink) (r : SnapshotResult) (n : EventJournal Value)
      → Told c k
      → Told
          (apply_reconciliation_result j endpoint c k r n).0.0
          (apply_reconciliation_result j endpoint c k r n).0.1
  unfolding apply_reconciliation_result
  on_result c k (unavailable error) n h = omega (
    arith,
    h,
    count-send_all-none told (snapshot_failed endpoint error ∷ []) k
        (quiet_event (snapshot_failed endpoint error) (about.at_diagnostic _ _ _)),
  )
  on_result c k (received snap) n h =
      let events = map (λ e. e.event) n.events in
      let applied =
        reconcile_replayed_with_updates j c.reducer snap events (not c.initialized)
          n.ready_emitted in
      let (bound, same) =
        announce_snapshot-le told (announces kind id) about endpoint j
          (record c { reducer = applied.1 }) k applied.0 initial_quiet in
      omega (
        arith,
        h,
        bound,
        ap (was_seen kind id) same,
        reconcile_once j kind id c.reducer snap events (not c.initialized) n.ready_emitted,
      )

  Told-IsKept : IsKept j endpoint Told
  Told-IsKept = record {
    on_event = on_event;
    on_reconciliation = on_result;
    on_bootstrap = λ c k r h.
        subst (λ x. Told x.0.0 x.0.1) (sym (bootstrap-reconciliation j endpoint c k r))
          (on_result c k r new_journal h);
    on_connected = λ c k h. omega (
      arith,
      h,
      count-send_all-none told (connected endpoint ∷ []) k
          (quiet_event (connected endpoint) (about.at_connected endpoint)),
    );
    on_disconnected = λ c k m h. omega (
      arith,
      h,
      count-send_all-none told (disconnected endpoint m ∷ []) k
          (quiet_event (disconnected endpoint m) (about.at_disconnected endpoint m)),
    );
    on_attempt = λ c k n h. h;
  }

  told_nothing : (n : ℕ) → count told [] ≤ n
  unfolding count
  told_nothing n = omega arith

  -- Over the whole life of a server's task, whatever inputs it meets in whatever order, reconnects
  -- and repeated snapshots included, the events that arrive announce a permission or question
  -- request at most once.
  pub announced_once_for_life :
      (key : InstanceKey) (room : ℕ) (verification : DiscoveryCompletion) (discovery : ℕ)
      (is : List (Input Value)) (m : Server Value)
      → run j endpoint is (start_server key room verification discovery) ≡ some m
      → count told m.sink.sent ≤ 1
  announced_once_for_life key room verification discovery is m e =
      let last =
        run-keeps j endpoint (λ n. Told n.connection n.sink)
          (λ i n n' f h. step-Good j endpoint Told Told-IsKept i n n' f h) is
          (start_server key room verification discovery) m e (told_nothing _) in
      ground (arith, last)
