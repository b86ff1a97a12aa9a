-- ===== src/Monitor/Connection/Initial.antt =====
-- The initial state of a server is announced once, and the reducer's state stays well-formed,
-- over the whole life of the server's task (src/monitor.rs, src/state.rs).
use mathlib.Core.Path.{subst}
use opencode_beacon.Prelude.{
  ℕ, Bool, true, false, some, List, [], ◌∷◌, ◌++◌, map, count, count-append, not, ◌≡◌, refl, sym,
  arith, ap, Bool-cases, inl, inr, ◌∙◌,
}
use opencode_beacon.Model.{ServerEndpoint, WireEvent, AttentionEvent, InstanceKey}
use opencode_beacon.Events.{BeaconEvent, connected, disconnected, initial_state}
use opencode_beacon.State.Record.{active_session_count}
use opencode_beacon.State.Attention.Once.{to_nat}
use opencode_beacon.State.Json.{Json}
use opencode_beacon.State.Reduce.{
  StateUpdate, apply_event_with_updates, reconcile_replayed_with_updates,
}
use opencode_beacon.Monitor.Pass.{DiscoveryCompletion}
use opencode_beacon.Monitor.Sink.{EventSink, send_all, EventJournal, new_journal}
use opencode_beacon.Monitor.Sink.Counts.{count-send_all-none, send_all_complete, send_all-single}
use opencode_beacon.Monitor.Live.{
  ServerConnectionState, SnapshotResult, received, unavailable, snapshot_failed, updated, projected,
  live_events, handle_live_event, announce_snapshot, apply_reconciliation_result,
}
use opencode_beacon.Monitor.Connection.{Input, Server}
use opencode_beacon.Monitor.Connection.Keeps.{IsKept, step-Good}
use opencode_beacon.Monitor.Connection.Runs.{start_server, run, run-keeps}
use opencode_beacon.Monitor.Connection.Counts.{
  IsAboutAttention, count-live_events, count-updated, count-projected, bootstrap-reconciliation,
}

unfoldable pub is_initial : BeaconEvent → Bool
is_initial (initial_state endpoint n) = true
is_initial _ = false

abbrev nothing : AttentionEvent → Bool
nothing a = false

initial-IsAboutAttention : IsAboutAttention is_initial nothing
unfolding is_initial
initial-IsAboutAttention = record {
  at_observed = λ ep o. refl;
  at_transition = λ ep t. refl;
  at_projection = λ v. refl;
  at_diagnostic = λ ep m b. refl;
  at_connected = λ ep. refl;
  at_disconnected = λ ep m. refl;
  at_attention = λ ep a. refl;
}

count-nothing : (events : List AttentionEvent) → count nothing events ≡ 0
unfolding count
count-nothing [] = refl
count-nothing (a ∷ events) = omega (arith, count-nothing events)

-- The announcements so far, and whether the connection is initialized.
abbrev Announced : ServerConnectionState → EventSink → Type 0
Announced c k = count is_initial k.sent ≡ to_nat c.initialized

quiet_event : (e : BeaconEvent) → is_initial e ≡ false → count is_initial (e ∷ []) ≡ 0
unfolding count
quiet_event e h = ground (arith, h)

one_initial : (ep : ServerEndpoint) (n : ℕ) → count is_initial (initial_state ep n ∷ []) ≡ 1
unfolding count is_initial
one_initial ep n = refl

module _ (j : Json) (endpoint : ServerEndpoint) where
  open j use {Value}

  abbrev about : IsAboutAttention is_initial nothing
  about = initial-IsAboutAttention

  announce_snapshot-Announced :
      (c : ServerConnectionState) (k : EventSink) (u : StateUpdate)
      → Announced c k
      → Announced (announce_snapshot j endpoint c k u).0.0 (announce_snapshot j endpoint c k u).0.1
  unfolding announce_snapshot
  announce_snapshot-Announced c k u h =
      let rest = updated endpoint u ++ projected endpoint c in
      let first = initial_state endpoint (active_session_count c.reducer) ∷ [] in
      let k' = (send_all first k).0 in
      let total : count is_initial rest ≡ 0 = omega (
        arith,
        count-append is_initial (updated endpoint u) (projected endpoint c),
        count-updated is_initial nothing about endpoint u,
        count-projected is_initial nothing about endpoint c,
        count-nothing u.attention,
      ) in
      elim (Bool-cases c.initialized) [
        | inl before ↦
            rw (before, announce_snapshot)
              (ground (arith, h, before, count-send_all-none is_initial rest k total))
        | inr first_time ↦ elim (Bool-cases (send_all first k).1) [
          | inr failed ↦
              rw (first_time, failed, announce_snapshot)
                (ground (arith, h, first_time, ap (count is_initial) (send_all-single _ k failed)))
          | inl ok ↦
              rw (first_time, ok, announce_snapshot)
                (ground (
                  arith,
                  h,
                  first_time,
                  ap (count is_initial) (send_all_complete first k ok),
                  count-append is_initial k.sent first,
                  one_initial endpoint (active_session_count c.reducer),
                  count-send_all-none is_initial rest k' total,
                ))
        ]
      ]

  on_event :
      (c : ServerConnectionState) (k : EventSink) (e : WireEvent Value)
      → Announced c k
      → Announced
          (handle_live_event j endpoint c k e).connection
          (handle_live_event j endpoint c k e).sink
  unfolding handle_live_event
  on_event c k e h =
      let applied = apply_event_with_updates j c.reducer e in
      let c' = record c { reducer = applied.1 } in
      omega (
        arith,
        h,
        count-send_all-none is_initial (live_events j endpoint c' e applied.0) k (
            count-live_events is_initial nothing about endpoint j c' e applied.0
            ∙ count-nothing applied.0.attention),
      )

  on_result :
      (c : ServerConnectionState) (k : EventSink) (r : SnapshotResult) (n : EventJournal Value)
      → Announced c k
      → Announced
          (apply_reconciliation_result j endpoint c k r n).0.0
          (apply_reconciliation_result j endpoint c k r n).0.1
  unfolding apply_reconciliation_result
  on_result c k (unavailable error) n h = omega (
    arith,
    h,
    count-send_all-none is_initial (snapshot_failed endpoint error ∷ []) k
        (quiet_event (snapshot_failed endpoint error) (about.at_diagnostic _ _ _)),
  )
  on_result c k (received snap) n h =
      let applied =
        reconcile_replayed_with_updates j c.reducer snap (map (λ e. e.event) n.events)
          (not c.initialized) n.ready_emitted in
      announce_snapshot-Announced (record c { reducer = applied.1 }) k applied.0 h

  Announced-IsKept : IsKept j endpoint Announced
  Announced-IsKept = record {
    on_event = on_event;
    on_reconciliation = on_result;
    on_bootstrap = λ c k r h.
        subst (λ x. Announced x.0.0 x.0.1) (sym (bootstrap-reconciliation j endpoint c k r))
          (on_result c k r new_journal h);
    on_connected = λ c k h. omega (
      arith,
      h,
      count-send_all-none is_initial (connected endpoint ∷ []) k
          (quiet_event (connected endpoint) (about.at_connected endpoint)),
    );
    on_disconnected = λ c k m h. omega (
      arith,
      h,
      count-send_all-none is_initial (disconnected endpoint m ∷ []) k
          (quiet_event (disconnected endpoint m) (about.at_disconnected endpoint m)),
    );
    on_attempt = λ c k n h. h;
  }

  none_announced : count is_initial [] ≡ 0
  unfolding count
  none_announced = refl

  -- Over the whole life of a server's task, the initial state has arrived once if the connection is
  -- initialized, and not yet if it is not; a reconnect never announces it again.
  pub initial_state_once :
      (key : InstanceKey) (room : ℕ) (verification : DiscoveryCompletion) (discovery : ℕ)
      (is : List (Input Value)) (m : Server Value)
      → run j endpoint is (start_server key room verification discovery) ≡ some m
      → count is_initial m.sink.sent ≡ to_nat m.connection.initialized
  initial_state_once key room verification discovery is m e =
      run-keeps j endpoint (λ n. Announced n.connection n.sink)
        (λ i n n' f h. step-Good j endpoint Announced Announced-IsKept i n n' f h) is
        (start_server key room verification discovery) m e none_announced
