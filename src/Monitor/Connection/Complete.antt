-- ===== src/Monitor/Connection/Complete.antt =====
-- The operations of a server's task hand on every event that they read (src/monitor.rs).
use mathlib.Core.List.{append_assoc, append-nil}
use mathlib.Core.Path.{subst}
use opencode_beacon.Prelude.{
  ℕ, String, Bool, true, false, Option, none, List, [], ◌∷◌, ◌++◌, ◌&&◌, not, ◌≡◌, refl, sym, ◌∙◌,
  ap, Bool-cases, Option-cases, inl, inr, ◌⊎◌, if◌then◌else◌, ◌||◌,
}
use opencode_beacon.Model.{ServerEndpoint, ObservedEvent}
use opencode_beacon.Events.{BeaconEvent, connected, disconnected}
use opencode_beacon.State.Json.{Json}
use opencode_beacon.Monitor.Sink.{EventSink, send_all, SourceEvent, EventJournal, new_journal}
use opencode_beacon.Monitor.Sink.Counts.{send_all-closed}
use opencode_beacon.Monitor.Live.{
  ServerConnectionState, SnapshotResult, received, unavailable, handle_live_event,
  apply_reconciliation_result, apply_bootstrap_snapshot_result,
}
use opencode_beacon.Monitor.Connection.{
  Triggers, Phase, connecting, bootstrapping, live, reconciling, waiting, ended, Server, look,
  may_reconnect, disconnect, handle, handle_all, open_stream, finish_bootstrap, bootstrap_snapshot,
  reconcile_event, reconcile_snapshot, live_event, receiver_closed, record_disconnect,
}
use opencode_beacon.Monitor.Connection.Counts.{bootstrap-reconciliation}
use opencode_beacon.Monitor.Connection.Delivered.{
  delivered, to_observe, to_observe_all, handle-delivered, handle-closed, delivered-quiet,
  result-delivered,
}

module _ (j : Json) (endpoint : ServerEndpoint) where
  open j use {Value}

  -- What a phase still holds back.
  abbrev pub pending : Phase Value → List ObservedEvent
  pending (bootstrapping n) = to_observe_all j n.events
  pending connecting = []
  pending live = []
  pending (reconciling n b) = []
  pending (waiting g b) = []
  pending ended = []

  -- What was handed on and what is held back make up the events read so far, unless the task has
  -- ended.
  abbrev pub Complete : List ObservedEvent → Server Value → Type 0
  Complete read m = (m.phase ≡ ended) ⊎ (delivered m.sink.sent ++ pending m.phase ≡ read)

  pub look-Complete :
      (m : Server Value) (g : ℕ) (b : Bool) (read : List ObservedEvent)
      → delivered m.sink.sent ≡ read
      → Complete read (look m g b)
  unfolding look
  look-Complete m g b read h = elim (Bool-cases (may_reconnect m g b)) [
    | inl ready ↦ rw (ready, look) (inr (append-nil (delivered m.sink.sent) ∙ h))
    | inr not_ready ↦ rw (not_ready, look) (inr (append-nil (delivered m.sink.sent) ∙ h))
  ]

  closed_send :
      (es : List BeaconEvent) (e : BeaconEvent) (k : EventSink)
      → k.room ≡ 0
      → (send_all (e ∷ es) k).1 ≡ false
  unfolding send_all
  closed_send es e k h = rw (h, send_all) refl

  said_quiet : (reason : String) → delivered (disconnected endpoint reason ∷ []) ≡ []
  unfolding delivered
  said_quiet reason = refl

  -- A task disconnects with everything handed on, or with a receiver that is closed.
  pub disconnect-Complete :
      (reason : String) (m : Server Value) (read : List ObservedEvent)
      → (m.sink.room ≡ 0) ⊎ (delivered m.sink.sent ≡ read)
      → Complete read (disconnect j endpoint reason m)
  unfolding disconnect
  disconnect-Complete reason m read h =
      let es = disconnected endpoint reason ∷ [] in
      let m' = record (record_disconnect m).1 { sink = (send_all es m.sink).0 } in
      elim (Bool-cases (send_all (disconnected endpoint reason ∷ []) m.sink).1) [
        | inr failed ↦ rw (failed, disconnect) (inl refl)
        | inl ok ↦ elim h [
          | inl closed ↦
              absurd (cc (ok, closed_send [] (disconnected endpoint reason) m.sink closed))
          | inr equal ↦
              rw (ok, disconnect)
                (look-Complete m' m.verification.generation false read
                  (delivered-quiet j endpoint es m.sink (said_quiet reason) ok ∙ equal))
        ]
      ]

  handle_all-cases :
      (es : List (SourceEvent Value)) (m : Server Value)
      → ((handle_all j endpoint es m).1 ≡ true
          → delivered (handle_all j endpoint es m).0.sink.sent
            ≡ delivered m.sink.sent ++ to_observe_all j es)
        × ((handle_all j endpoint es m).1 ≡ false → (handle_all j endpoint es m).0.sink.room ≡ 0)
  unfolding handle_all handle to_observe_all
  handle_all-cases [] m = (λ h. sym (append-nil (delivered m.sink.sent)), λ h. cc)
  handle_all-cases (e ∷ es) m =
      let m' = (handle j endpoint e.event m).0 in
      let rest = handle_all-cases es m' in
      elim (Bool-cases (handle j endpoint e.event m).1) [
        | inr failed ↦
            rw (failed, handle_all)
              (λ h. cc, λ h. handle-closed j endpoint m.connection m.sink e.event failed)
        | inl ok ↦
            rw (ok, handle_all)
              (
                λ h.
                    rest.0 h
                    ∙ ap (λ zs. zs ++ to_observe_all j es)
                        (handle-delivered j endpoint m.connection m.sink e.event ok)
                    ∙ append_assoc (delivered m.sink.sent) (to_observe j e.event)
                        (to_observe_all j es),
                rest.1,
              )
      ]

  pub finish_bootstrap-Complete :
      (n : EventJournal Value) (error : Option String) (m : Server Value)
      (read : List ObservedEvent)
      → delivered m.sink.sent ++ to_observe_all j n.events ≡ read
      → Complete read (finish_bootstrap j endpoint n error m)
  unfolding finish_bootstrap
  finish_bootstrap-Complete n error m read h =
      let m' = (handle_all j endpoint n.events m).0 in
      let (all_on, closed) = handle_all-cases n.events m in
      elim (Bool-cases (handle_all j endpoint n.events m).1) [
        | inr failed ↦
            rw (failed, finish_bootstrap)
              (disconnect-Complete receiver_closed m' read (inl (closed failed)))
        | inl ok ↦ elim (Option-cases error) [
          | inl e ↦
              rw (ok, e, finish_bootstrap)
                (inr (append-nil (delivered m'.sink.sent) ∙ all_on ok ∙ h))
          | inr (reason, e) ↦
              rw (ok, e, finish_bootstrap)
                (disconnect-Complete reason m' read (inr (all_on ok ∙ h)))
        ]
      ]

  -- The same for the first snapshot of a connection.
  bootstrap-delivered :
      (c : ServerConnectionState) (k : EventSink) (r : SnapshotResult)
      → ((apply_bootstrap_snapshot_result j endpoint c k r).1 ≡ true
          → delivered (apply_bootstrap_snapshot_result j endpoint c k r).0.1.sent
            ≡ delivered k.sent)
        × ((apply_bootstrap_snapshot_result j endpoint c k r).1 ≡ false
            → (apply_bootstrap_snapshot_result j endpoint c k r).0.1.room ≡ 0)
  bootstrap-delivered c k r =
      subst
        (λ x.
          (x.1 ≡ true → delivered x.0.1.sent ≡ delivered k.sent) × (x.1 ≡ false → x.0.1.room ≡ 0))
        (sym (bootstrap-reconciliation j endpoint c k r))
        (result-delivered j endpoint c k r new_journal)

  pub bootstrap_snapshot-Complete :
      (n : EventJournal Value) (r : SnapshotResult) (m : Server Value) (read : List ObservedEvent)
      → delivered m.sink.sent ++ to_observe_all j n.events ≡ read
      → Complete read (bootstrap_snapshot j endpoint n r m)
  unfolding bootstrap_snapshot
  bootstrap_snapshot-Complete n (received snap) m read h =
      let applied =
        apply_bootstrap_snapshot_result j endpoint m.connection m.sink (received snap) in
      let (same, closed) = bootstrap-delivered m.connection m.sink (received snap) in
      let m' = record m { connection = applied.0.0; sink = applied.0.1 } in
      elim (Bool-cases
        (apply_bootstrap_snapshot_result j endpoint m.connection m.sink (received snap)).1) [
          | inr failed ↦
              rw (failed, bootstrap_snapshot)
                (disconnect-Complete receiver_closed m' read (inl (closed failed)))
          | inl ok ↦
              rw (ok, bootstrap_snapshot)
                (finish_bootstrap-Complete n none
                  (record m' { connection = record applied.0.0 { reconnect_attempt = 0 } }) read
                  (ap (λ zs. zs ++ to_observe_all j n.events) (same ok) ∙ h))
        ]
  bootstrap_snapshot-Complete n (unavailable error) m read h =
      let applied =
        apply_bootstrap_snapshot_result j endpoint m.connection m.sink (unavailable error) in
      let (same, closed) = bootstrap-delivered m.connection m.sink (unavailable error) in
      let m' = record m { connection = applied.0.0; sink = applied.0.1 } in
      elim (Bool-cases
        (apply_bootstrap_snapshot_result j endpoint m.connection m.sink (unavailable error)).1) [
          | inr failed ↦
              rw (failed, bootstrap_snapshot)
                (disconnect-Complete receiver_closed m' read (inl (closed failed)))
          | inl ok ↦
              rw (ok, bootstrap_snapshot)
                (finish_bootstrap-Complete n none m' read
                  (ap (λ zs. zs ++ to_observe_all j n.events) (same ok) ∙ h))
        ]

  pub reconcile_event-Complete :
      (n : EventJournal Value) (rerun : Bool) (e : SourceEvent Value) (m : Server Value)
      (read : List ObservedEvent)
      → delivered m.sink.sent ≡ read
      → Complete (read ++ to_observe j e.event) (reconcile_event j endpoint n rerun e m)
  unfolding reconcile_event
  reconcile_event-Complete n rerun e m read h =
      let done = handle_live_event j endpoint m.connection m.sink e.event in
      let m' = record m { connection = done.connection; sink = done.sink } in
      elim (Bool-cases (handle_live_event j endpoint m.connection m.sink e.event).sent_all) [
        | inr failed ↦
            rw (failed, reconcile_event)
              (disconnect-Complete receiver_closed m' (read ++ to_observe j e.event)
                (inl (handle-closed j endpoint m.connection m.sink e.event failed)))
        | inl ok ↦
            rw (ok, reconcile_event)
              (inr (
                append-nil (delivered done.sink.sent)
                ∙ handle-delivered j endpoint m.connection m.sink e.event ok
                ∙ ap (λ zs. zs ++ to_observe j e.event) h))
      ]

  pub live_event-Complete :
      (e : SourceEvent Value) (m : Server Value) (read : List ObservedEvent)
      → pending m.phase ≡ []
      → delivered m.sink.sent ≡ read
      → Complete (read ++ to_observe j e.event) (live_event j endpoint e m)
  unfolding live_event handle
  live_event-Complete e m read p h =
      let m' = (handle j endpoint e.event m).0 in
      elim (Bool-cases (handle j endpoint e.event m).1) [
        | inr failed ↦
            rw (failed, live_event)
              (disconnect-Complete receiver_closed m' (read ++ to_observe j e.event)
                (inl (handle-closed j endpoint m.connection m.sink e.event failed)))
        | inl ok ↦
            rw (ok, live_event)
              (inr (
                ap (λ zs. delivered m'.sink.sent ++ zs) p
                ∙ append-nil (delivered m'.sink.sent)
                ∙ handle-delivered j endpoint m.connection m.sink e.event ok
                ∙ ap (λ zs. zs ++ to_observe j e.event) h))
      ]

  next_quiet : (again : Bool) → pending (if again then reconciling new_journal false else live) ≡ []
  next_quiet true = refl
  next_quiet false = refl

  pub reconcile_snapshot-Complete :
      (n : EventJournal Value) (rerun : Bool) (r : SnapshotResult) (t : Triggers) (m : Server Value)
      (read : List ObservedEvent)
      → delivered m.sink.sent ≡ read
      → Complete read (reconcile_snapshot j endpoint n rerun r t m)
  unfolding reconcile_snapshot
  reconcile_snapshot-Complete n rerun r t m read h =
      let after = apply_reconciliation_result j endpoint m.connection m.sink r n in
      let (same, closed) = result-delivered j endpoint m.connection m.sink r n in
      let m' = record m {
        connection = after.0.0;
        sink = after.0.1;
        coalesced = m.coalesced && not t.coalesced_ready;
      } in
      elim (Option-cases t.manual_ready) [
        | inl shut ↦ rw (shut, reconcile_snapshot) (inl refl)
        | inr (manual, e) ↦
            elim (Bool-cases (apply_reconciliation_result j endpoint m.connection m.sink r n).1) [
              | inr failed ↦
                  rw (e, failed, reconcile_snapshot)
                    (disconnect-Complete receiver_closed m' read (inl (closed failed)))
              | inl ok ↦
                  rw (e, ok, reconcile_snapshot)
                    (inr (
                      ap (λ zs. delivered after.0.1.sent ++ zs)
                        (next_quiet (
                          rerun
                          || t.periodic_ready
                          || manual
                          || (m.coalesced && t.coalesced_ready)))
                      ∙ append-nil (delivered after.0.1.sent)
                      ∙ same ok
                      ∙ h))
            ]
      ]

  connected_quiet : delivered (connected endpoint ∷ []) ≡ []
  unfolding delivered
  connected_quiet = refl

  nothing_pending : pending (bootstrapping new_journal) ≡ []
  unfolding to_observe_all
  nothing_pending = refl

  pub open_stream-Complete :
      (m : Server Value) (read : List ObservedEvent)
      → delivered m.sink.sent ≡ read
      → Complete read (open_stream j endpoint m)
  unfolding open_stream
  open_stream-Complete m read h =
      let es = connected endpoint ∷ [] in
      let m' = record m { sink = (send_all es m.sink).0 } in
      elim (Bool-cases (send_all (connected endpoint ∷ []) m.sink).1) [
        | inr failed ↦
            rw (failed, open_stream)
              (disconnect-Complete receiver_closed m' read (inl (send_all-closed es m.sink failed)))
        | inl ok ↦
            rw (ok, open_stream)
              (inr (
                ap (λ zs. delivered m'.sink.sent ++ zs) nothing_pending
                ∙ append-nil (delivered m'.sink.sent)
                ∙ delivered-quiet j endpoint es m.sink connected_quiet ok
                ∙ h))
      ]
