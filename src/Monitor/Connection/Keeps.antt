-- ===== src/Monitor/Connection/Keeps.antt =====
-- A property of a server's connection state and sink that every operation keeps holds after every
-- step of the task (src/monitor.rs).
use mathlib.Core.Path.{subst}
use opencode_beacon.Prelude.{
  ℕ, String, Bool, false, Option, none, some, List, [], ◌∷◌, ◌≡◌, Bool-cases, inl, inr, sym,
  Option-cases, ◌&&◌, not,
}
use opencode_beacon.Model.{ServerEndpoint, WireEvent}
use opencode_beacon.Events.{connected, disconnected}
use opencode_beacon.State.Json.{Json}
use opencode_beacon.Monitor.Sink.{EventSink, send_all, SourceEvent, EventJournal}
use opencode_beacon.Monitor.Live.{
  ServerConnectionState, SnapshotResult, received, unavailable, handle_live_event,
  apply_reconciliation_result, apply_bootstrap_snapshot_result,
}
use opencode_beacon.Monitor.Connection.{
  Triggers, Input, Phase, Server, next_attempt, look, may_reconnect, disconnect, handle, handle_all,
  finish_bootstrap, bootstrap_snapshot, reconcile_event, reconcile_snapshot, live_event, step,
  receiver_closed, record_disconnect, open_stream,
}
use opencode_beacon.Monitor.Connection.Effect.{
  Effect, refuses, moves, opens, disconnects, buffers, fails_early, bootstraps, handles, journals,
  reconciles, looks, effect,
}

module _ (j : Json) (endpoint : ServerEndpoint) where
  open j use {Value}

  -- Every operation that changes the connection state or the sink keeps the property.
  pub record IsKept (P : ServerConnectionState → EventSink → Type 0) : Type 0 where
    pub on_event :
        (c : ServerConnectionState) (k : EventSink) (e : WireEvent Value)
        → P c k
        → P
            (handle_live_event j endpoint c k e).connection
            (handle_live_event j endpoint c k e).sink
    pub on_reconciliation :
        (c : ServerConnectionState) (k : EventSink) (r : SnapshotResult) (n : EventJournal Value)
        → P c k
        → P
            (apply_reconciliation_result j endpoint c k r n).0.0
            (apply_reconciliation_result j endpoint c k r n).0.1
    pub on_bootstrap :
        (c : ServerConnectionState) (k : EventSink) (r : SnapshotResult)
        → P c k
        → P
            (apply_bootstrap_snapshot_result j endpoint c k r).0.0
            (apply_bootstrap_snapshot_result j endpoint c k r).0.1
    pub on_connected :
        (c : ServerConnectionState) (k : EventSink)
        → P c k
        → P c (send_all (connected endpoint ∷ []) k).0
    pub on_disconnected :
        (c : ServerConnectionState) (k : EventSink) (reason : String)
        → P c k
        → P c (send_all (disconnected endpoint reason ∷ []) k).0
    pub on_attempt :
        (c : ServerConnectionState) (k : EventSink) (n : ℕ)
        → P c k
        → P (record c { reconnect_attempt = n }) k

  module _ (P : ServerConnectionState → EventSink → Type 0) (kept : IsKept P) where
    abbrev Good : Server Value → Type 0
    Good m = P m.connection m.sink

    look-Good : (m : Server Value) (g : ℕ) (b : Bool) → Good m → Good (look m g b)
    unfolding look
    look-Good m g b h = elim (Bool-cases (may_reconnect m g b)) [
      | inl ready ↦
          rw (ready, look)
            (kept.on_attempt m.connection m.sink (next_attempt m.connection.reconnect_attempt) h)
      | inr not_ready ↦ rw (not_ready, look) h
    ]

    disconnect-Good :
        (reason : String) (m : Server Value) → Good m → Good (disconnect j endpoint reason m)
    unfolding disconnect
    disconnect-Good reason m h =
        let said = kept.on_disconnected m.connection m.sink reason h in
        let m' = record (record_disconnect m).1 {
          sink = (send_all (disconnected endpoint reason ∷ []) m.sink).0;
        } in
        elim (Bool-cases (send_all (disconnected endpoint reason ∷ []) m.sink).1) [
          | inl ok ↦ rw (ok, disconnect) (look-Good m' m.verification.generation false said)
          | inr failed ↦ rw (failed, disconnect) said
        ]

    handle_all-Good :
        (es : List (SourceEvent Value)) (m : Server Value)
        → Good m
        → Good (handle_all j endpoint es m).0
    unfolding handle_all handle
    handle_all-Good [] m h = h
    handle_all-Good (e ∷ es) m h =
        let one = kept.on_event m.connection m.sink e.event h in
        elim (Bool-cases (handle j endpoint e.event m).1) [
          | inl ok ↦ rw (ok, handle_all) (handle_all-Good es (handle j endpoint e.event m).0 one)
          | inr failed ↦ rw (failed, handle_all) one
        ]

    finish_bootstrap-Good :
        (n : EventJournal Value) (error : Option String) (m : Server Value)
        → Good m
        → Good (finish_bootstrap j endpoint n error m)
    unfolding finish_bootstrap
    finish_bootstrap-Good n none m h =
        let replayed = handle_all-Good n.events m h in
        let m' = (handle_all j endpoint n.events m).0 in
        elim (Bool-cases (handle_all j endpoint n.events m).1) [
          | inr failed ↦ rw (failed, finish_bootstrap) (disconnect-Good receiver_closed m' replayed)
          | inl ok ↦ rw (ok, finish_bootstrap) replayed
        ]
    finish_bootstrap-Good n (some error) m h =
        let replayed = handle_all-Good n.events m h in
        let m' = (handle_all j endpoint n.events m).0 in
        elim (Bool-cases (handle_all j endpoint n.events m).1) [
          | inr failed ↦ rw (failed, finish_bootstrap) (disconnect-Good receiver_closed m' replayed)
          | inl ok ↦ rw (ok, finish_bootstrap) (disconnect-Good error m' replayed)
        ]

    -- The machine after the first snapshot is applied.
    bootstrapped : SnapshotResult → Server Value → Server Value
    bootstrapped result m =
        let applied = apply_bootstrap_snapshot_result j endpoint m.connection m.sink result in
        record m { connection = applied.0.0; sink = applied.0.1 }

    bootstrap_snapshot-Good :
        (n : EventJournal Value) (result : SnapshotResult) (m : Server Value)
        → Good m
        → Good (bootstrap_snapshot j endpoint n result m)
    unfolding bootstrap_snapshot bootstrapped
    bootstrap_snapshot-Good n (received snap) m h =
        let applied = kept.on_bootstrap m.connection m.sink (received snap) h in
        let m' = bootstrapped (received snap) m in
        elim (Bool-cases
          (apply_bootstrap_snapshot_result j endpoint m.connection m.sink (received snap)).1) [
            | inr failed ↦
                rw (failed, bootstrap_snapshot) (disconnect-Good receiver_closed m' applied)
            | inl ok ↦
                rw (ok, bootstrap_snapshot)
                  (finish_bootstrap-Good n none
                    (record m' { connection = record m'.connection { reconnect_attempt = 0 } })
                    (kept.on_attempt m'.connection m'.sink 0 applied))
          ]
    bootstrap_snapshot-Good n (unavailable e) m h =
        let applied = kept.on_bootstrap m.connection m.sink (unavailable e) h in
        let m' = bootstrapped (unavailable e) m in
        elim (Bool-cases
          (apply_bootstrap_snapshot_result j endpoint m.connection m.sink (unavailable e)).1) [
            | inr failed ↦
                rw (failed, bootstrap_snapshot) (disconnect-Good receiver_closed m' applied)
            | inl ok ↦ rw (ok, bootstrap_snapshot) (finish_bootstrap-Good n none m' applied)
          ]

    reconcile_event-Good :
        (n : EventJournal Value) (rerun : Bool) (e : SourceEvent Value) (m : Server Value)
        → Good m
        → Good (reconcile_event j endpoint n rerun e m)
    unfolding reconcile_event
    reconcile_event-Good n rerun e m h =
        let handled = handle_live_event j endpoint m.connection m.sink e.event in
        let kept_on = kept.on_event m.connection m.sink e.event h in
        let m' = record m { connection = handled.connection; sink = handled.sink } in
        elim (Bool-cases (handle_live_event j endpoint m.connection m.sink e.event).sent_all) [
          | inr failed ↦ rw (failed, reconcile_event) (disconnect-Good receiver_closed m' kept_on)
          | inl ok ↦ rw (ok, reconcile_event) kept_on
        ]

    live_event-Good :
        (e : SourceEvent Value) (m : Server Value) → Good m → Good (live_event j endpoint e m)
    unfolding live_event
    live_event-Good e m h =
        let kept_on = kept.on_event m.connection m.sink e.event h in
        let m' = (handle j endpoint e.event m).0 in
        elim (Bool-cases (handle j endpoint e.event m).1) [
          | inr failed ↦ rw (failed, live_event) (disconnect-Good receiver_closed m' kept_on)
          | inl ok ↦ rw (ok, live_event) kept_on
        ]

    reconcile_snapshot-Good :
        (n : EventJournal Value) (rerun : Bool) (result : SnapshotResult) (t : Triggers)
        (m : Server Value)
        → Good m
        → Good (reconcile_snapshot j endpoint n rerun result t m)
    unfolding reconcile_snapshot
    reconcile_snapshot-Good n rerun result t m h =
        let after = apply_reconciliation_result j endpoint m.connection m.sink result n in
        let applied = kept.on_reconciliation m.connection m.sink result n h in
        let m' = record m {
          connection = after.0.0;
          sink = after.0.1;
          coalesced = m.coalesced && not t.coalesced_ready;
        } in
        elim (Option-cases t.manual_ready) [
          | inl closed ↦ rw (closed, reconcile_snapshot) h
          | inr (manual, e) ↦
              elim (Bool-cases
                (apply_reconciliation_result j endpoint m.connection m.sink result n).1) [
                  | inr failed ↦
                      rw (e, failed, reconcile_snapshot)
                        (disconnect-Good receiver_closed m' applied)
                  | inl ok ↦ rw (e, ok, reconcile_snapshot) applied
                ]
        ]

    open_stream-Good : (m : Server Value) → Good m → Good (open_stream j endpoint m)
    unfolding open_stream
    open_stream-Good m h =
        let said = kept.on_connected m.connection m.sink h in
        let m' = record m { sink = (send_all (connected endpoint ∷ []) m.sink).0 } in
        elim (Bool-cases (send_all (connected endpoint ∷ []) m.sink).1) [
          | inl ok ↦ rw (ok, open_stream) said
          | inr failed ↦ rw (failed, open_stream) (disconnect-Good receiver_closed m' said)
        ]

    -- The property of the machine that a step leads to, if it leads to one.
    abbrev AllGood : Option (Server Value) → Type 0
    AllGood none = Unit
    AllGood (some m) = Good m

    Effect-Good :
        (m : Server Value) (p : Phase Value) (i : Input Value) (o : Option (Server Value))
        → Good m
        → Effect j endpoint m p i o
        → AllGood o
    Effect-Good m p i o h (refuses e) = subst AllGood (sym e) (tt)
    Effect-Good m p i o h (moves q c v mv quiet e) = subst AllGood (sym e) h
    Effect-Good m p i o h (opens quiet free e) = subst AllGood (sym e) (open_stream-Good m h)
    Effect-Good m p i o h (disconnects reason quiet free e) =
        subst AllGood (sym e) (disconnect-Good reason m h)
    Effect-Good m p i o h (buffers n x a b c e) = subst AllGood (sym e) h
    Effect-Good m p i o h (fails_early n x a quiet e) =
        subst AllGood (sym e) (finish_bootstrap-Good n (some x) m h)
    Effect-Good m p i o h (bootstraps n r a quiet e) =
        subst AllGood (sym e) (bootstrap_snapshot-Good n r m h)
    Effect-Good m p i o h (handles x a free e) = subst AllGood (sym e) (live_event-Good x m h)
    Effect-Good m p i o h (journals n r x a b c e) =
        subst AllGood (sym e) (reconcile_event-Good n r x m h)
    Effect-Good m p i o h (reconciles n r x t a quiet e) =
        subst AllGood (sym e) (reconcile_snapshot-Good n r x t m h)
    Effect-Good m p i o h (looks g b v quiet free e) =
        subst AllGood (sym e) (look-Good (record m { verification = v }) g b h)

    pub step-Good :
        (i : Input Value) (m m' : Server Value) → step j endpoint i m ≡ some m' → Good m → Good m'
    unfolding step
    step-Good i m m' e h =
        subst AllGood e (Effect-Good m m.phase i _ h (effect j endpoint m m.phase i))
