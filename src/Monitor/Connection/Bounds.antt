-- ===== src/Monitor/Connection/Bounds.antt =====
-- The journals of a server's task stay within their limits (src/monitor.rs).
use mathlib.Core.Path.{subst}
use opencode_beacon.Prelude.{
  ℕ, ◌+◌, ◌≤◌, String, Bool, true, false, Option, none, some, List, [], ◌∷◌, ◌++◌, ◌&&◌, ◌||◌, not,
  if◌then◌else◌, ◌≡◌, refl, sym, arith, Bool-cases, Option-cases, inl, inr, length,
}
use opencode_beacon.Model.{ServerEndpoint, InstanceKey}
use opencode_beacon.Events.{connected, disconnected}
use opencode_beacon.State.Json.{Json}
use opencode_beacon.Monitor.Pass.{DiscoveryCompletion}
use opencode_beacon.Monitor.Sink.{
  send_all, SourceEvent, EventJournal, new_journal, push_event, can_poll, bootstrap_event_capacity,
  max_buffered_source_bytes,
}
use opencode_beacon.Monitor.Live.{
  SnapshotResult, received, unavailable, handle_live_event, apply_reconciliation_result,
  apply_bootstrap_snapshot_result, is_state_event,
}
use opencode_beacon.Monitor.Connection.{
  arrived, Input, next_item, Triggers, Phase, connecting, bootstrapping, live, reconciling, waiting,
  ended, Server, look, may_reconnect, disconnect, handle, handle_all, open_stream, finish_bootstrap,
  bootstrap_snapshot, reconcile_event, reconcile_snapshot, live_event, step, receiver_closed,
  record_disconnect,
}
use opencode_beacon.Monitor.Connection.Effect.{
  Move, finishes, stays, begins, repeats, Effect, refuses, moves, opens, disconnects, buffers,
  fails_early, bootstraps, handles, journals, reconciles, looks, effect,
}
use opencode_beacon.Monitor.Connection.Runs.{start_server, run}

-- A journal of at most 1024 events, and at most 8 MiB besides one event of the largest size.
pub record IsSmall {V : Type 0} (largest : ℕ) (n : EventJournal V) : Type 0 where
  pub few : length n.events ≤ bootstrap_event_capacity
  pub light : n.source_bytes ≤ max_buffered_source_bytes + largest

length-concat : {A : Type 0} (xs : List A) (x : A) → length (xs ++ (x ∷ [])) ≡ length xs + 1
length-concat [] x = omega arith
length-concat (y ∷ xs) x = omega (arith, length-concat xs x)

push-IsSmall :
    {V : Type 0} (largest : ℕ) (e : SourceEvent V) (n : EventJournal V)
    → can_poll n ≡ true
    → e.source_bytes ≤ largest
    → IsSmall largest (push_event e n)
unfolding can_poll push_event
push-IsSmall largest e n room size = record {
  few = ground (arith, room, length-concat n.events e);
  light = ground (arith, room, size);
}

new-IsSmall : {V : Type 0} (largest : ℕ) → IsSmall {V = V} largest new_journal
new-IsSmall largest = record { few = omega arith; light = omega arith }

module _ (j : Json) (endpoint : ServerEndpoint) (largest : ℕ) where
  open j use {Value}

  -- The journal of a phase, if it has one.
  abbrev pub HasSmallJournal : Phase Value → Type 0
  HasSmallJournal (bootstrapping n) = IsSmall largest n
  HasSmallJournal (reconciling n b) = IsSmall largest n
  HasSmallJournal connecting = Unit
  HasSmallJournal live = Unit
  HasSmallJournal (waiting g b) = Unit
  HasSmallJournal ended = Unit

  abbrev Fits : Server Value → Type 0
  Fits m = HasSmallJournal m.phase

  look-Fits : (m : Server Value) (g : ℕ) (b : Bool) → Fits (look m g b)
  unfolding look
  look-Fits m g b = elim (Bool-cases (may_reconnect m g b)) [
    | inl ready ↦ rw (ready, look) tt
    | inr not_ready ↦ rw (not_ready, look) tt
  ]

  disconnect-Fits : (reason : String) (m : Server Value) → Fits (disconnect j endpoint reason m)
  unfolding disconnect
  disconnect-Fits reason m =
      elim (Bool-cases (send_all (disconnected endpoint reason ∷ []) m.sink).1) [
        | inr failed ↦ rw (failed, disconnect) tt
        | inl ok ↦
            rw (ok, disconnect)
              (look-Fits
                (record (record_disconnect m).1 {
                  sink = (send_all (disconnected endpoint reason ∷ []) m.sink).0;
                })
                m.verification.generation false)
      ]

  finish_bootstrap-Fits :
      (n : EventJournal Value) (error : Option String) (m : Server Value)
      → Fits (finish_bootstrap j endpoint n error m)
  unfolding finish_bootstrap
  finish_bootstrap-Fits n error m =
      let m' = (handle_all j endpoint n.events m).0 in
      elim (Bool-cases (handle_all j endpoint n.events m).1) [
        | inr failed ↦ rw (failed, finish_bootstrap) (disconnect-Fits receiver_closed m')
        | inl ok ↦ elim (Option-cases error) [
          | inl e ↦ rw (ok, e, finish_bootstrap) tt
          | inr (reason, e) ↦ rw (ok, e, finish_bootstrap) (disconnect-Fits reason m')
        ]
      ]

  bootstrap_snapshot-Fits :
      (n : EventJournal Value) (r : SnapshotResult) (m : Server Value)
      → Fits (bootstrap_snapshot j endpoint n r m)
  unfolding bootstrap_snapshot
  bootstrap_snapshot-Fits n (received snap) m =
      let applied =
        apply_bootstrap_snapshot_result j endpoint m.connection m.sink (received snap) in
      let m' = record m { connection = applied.0.0; sink = applied.0.1 } in
      elim (Bool-cases
        (apply_bootstrap_snapshot_result j endpoint m.connection m.sink (received snap)).1) [
          | inr failed ↦ rw (failed, bootstrap_snapshot) (disconnect-Fits receiver_closed m')
          | inl ok ↦
              rw (ok, bootstrap_snapshot)
                (finish_bootstrap-Fits n none
                  (record m' { connection = record applied.0.0 { reconnect_attempt = 0 } }))
        ]
  bootstrap_snapshot-Fits n (unavailable error) m =
      let applied =
        apply_bootstrap_snapshot_result j endpoint m.connection m.sink (unavailable error) in
      let m' = record m { connection = applied.0.0; sink = applied.0.1 } in
      elim (Bool-cases
        (apply_bootstrap_snapshot_result j endpoint m.connection m.sink (unavailable error)).1) [
          | inr failed ↦ rw (failed, bootstrap_snapshot) (disconnect-Fits receiver_closed m')
          | inl ok ↦ rw (ok, bootstrap_snapshot) (finish_bootstrap-Fits n none m')
        ]

  reconcile_event-Fits :
      (n : EventJournal Value) (rerun : Bool) (e : SourceEvent Value) (m : Server Value)
      → can_poll n ≡ true
      → e.source_bytes ≤ largest
      → IsSmall largest n
      → Fits (reconcile_event j endpoint n rerun e m)
  unfolding reconcile_event
  reconcile_event-Fits n rerun e m room size small =
      let done = handle_live_event j endpoint m.connection m.sink e.event in
      let m' = record m { connection = done.connection; sink = done.sink } in
      elim (Bool-cases (handle_live_event j endpoint m.connection m.sink e.event).sent_all) [
        | inr failed ↦ rw (failed, reconcile_event) (disconnect-Fits receiver_closed m')
        | inl ok ↦ elim (Bool-cases (is_state_event e.event)) [
          | inl state ↦
              rw (ok, state, reconcile_event)
                (let pushed = push-IsSmall largest e n room size in
                  record { few = pushed.few; light = pushed.light })
          | inr other ↦
              rw (ok, other, reconcile_event) (record { few = small.few; light = small.light })
        ]
      ]

  next-Fits :
      (again : Bool) → HasSmallJournal (if again then reconciling new_journal false else live)
  next-Fits true = new-IsSmall largest
  next-Fits false = tt

  reconcile_snapshot-Fits :
      (n : EventJournal Value) (rerun : Bool) (r : SnapshotResult) (t : Triggers) (m : Server Value)
      → Fits (reconcile_snapshot j endpoint n rerun r t m)
  unfolding reconcile_snapshot
  reconcile_snapshot-Fits n rerun r t m =
      let after = apply_reconciliation_result j endpoint m.connection m.sink r n in
      let m' = record m {
        connection = after.0.0;
        sink = after.0.1;
        coalesced = m.coalesced && not t.coalesced_ready;
      } in
      elim (Option-cases t.manual_ready) [
        | inl shut ↦ rw (shut, reconcile_snapshot) tt
        | inr (manual, e) ↦
            elim (Bool-cases (apply_reconciliation_result j endpoint m.connection m.sink r n).1) [
              | inr failed ↦ rw (e, failed, reconcile_snapshot) (disconnect-Fits receiver_closed m')
              | inl ok ↦
                  rw (e, ok, reconcile_snapshot)
                    (next-Fits
                      (rerun || t.periodic_ready || manual || (m.coalesced && t.coalesced_ready)))
            ]
      ]

  live_event-Fits :
      (e : SourceEvent Value) (m : Server Value) → Fits m → Fits (live_event j endpoint e m)
  unfolding live_event handle
  live_event-Fits e m h =
      let m' = (handle j endpoint e.event m).0 in
      elim (Bool-cases (handle j endpoint e.event m).1) [
        | inr failed ↦ rw (failed, live_event) (disconnect-Fits receiver_closed m')
        | inl ok ↦ rw (ok, live_event) h
      ]

  open_stream-Fits : (m : Server Value) → Fits (open_stream j endpoint m)
  unfolding open_stream
  open_stream-Fits m =
      let m' = record m { sink = (send_all (connected endpoint ∷ []) m.sink).0 } in
      elim (Bool-cases (send_all (connected endpoint ∷ []) m.sink).1) [
        | inr failed ↦ rw (failed, open_stream) (disconnect-Fits receiver_closed m')
        | inl ok ↦ rw (ok, open_stream) (new-IsSmall largest)
      ]

  -- No event that the input brings is larger than `largest`.
  abbrev pub IsWithin : Input Value → Type 0
  IsWithin (next_item (arrived e)) = e.source_bytes ≤ largest
  IsWithin _ = Unit

  abbrev pub AllWithin : List (Input Value) → Type 0
  AllWithin [] = Unit
  AllWithin (i ∷ is) = IsWithin i × AllWithin is

  abbrev AllFit : Option (Server Value) → Type 0
  AllFit none = Unit
  AllFit (some m) = Fits m

  Move-Fits : (p q : Phase Value) → Move p q → HasSmallJournal p → HasSmallJournal q
  Move-Fits p q (finishes e) h = subst HasSmallJournal (sym e) tt
  Move-Fits p q (stays e) h = subst HasSmallJournal (sym e) h
  Move-Fits p q (begins e f) h = subst HasSmallJournal (sym f) (new-IsSmall largest)
  Move-Fits p q (repeats n b e f) h = subst HasSmallJournal (sym f) (subst HasSmallJournal e h)

  Effect-Fits :
      (m : Server Value) (p : Phase Value) (i : Input Value) (o : Option (Server Value))
      → m.phase ≡ p
      → IsWithin i
      → HasSmallJournal p
      → Effect j endpoint m p i o
      → AllFit o
  Effect-Fits m p i o at w h (refuses e) = subst AllFit (sym e) tt
  Effect-Fits m p i o at w h (moves q c v mv quiet e) = subst AllFit (sym e) (Move-Fits p q mv h)
  Effect-Fits m p i o at w h (opens quiet free e) = subst AllFit (sym e) (open_stream-Fits m)
  Effect-Fits m p i o at w h (disconnects reason quiet free e) =
      subst AllFit (sym e) (disconnect-Fits reason m)
  Effect-Fits m p i o at w h (buffers n x a b c e) =
      subst AllFit (sym e) (push-IsSmall largest x n c (subst IsWithin b w))
  Effect-Fits m p i o at w h (fails_early n x a quiet e) =
      subst AllFit (sym e) (finish_bootstrap-Fits n (some x) m)
  Effect-Fits m p i o at w h (bootstraps n r a quiet e) =
      subst AllFit (sym e) (bootstrap_snapshot-Fits n r m)
  Effect-Fits m p i o at w h (handles x a free e) =
      subst AllFit (sym e) (live_event-Fits x m (subst HasSmallJournal (sym at) h))
  Effect-Fits m p i o at w h (journals n r x a b c e) =
      subst AllFit (sym e)
        (reconcile_event-Fits n r x m c (subst IsWithin b w) (subst HasSmallJournal a h))
  Effect-Fits m p i o at w h (reconciles n r x t a quiet e) =
      subst AllFit (sym e) (reconcile_snapshot-Fits n r x t m)
  Effect-Fits m p i o at w h (looks g b v quiet free e) =
      subst AllFit (sym e) (look-Fits (record m { verification = v }) g b)

  run-Fits :
      (is : List (Input Value)) (m m' : Server Value)
      → run j endpoint is m ≡ some m'
      → AllWithin is
      → Fits m
      → Fits m'
  unfolding run step
  run-Fits [] m m' e w h = let same : m ≡ m' = ground (arith, e) in subst Fits same h
  run-Fits (i ∷ is) m m' e w h = elim (Option-cases (step j endpoint i m)) [
    | inl f ↦ absurd (ground (arith, e, f))
    | inr (n, f) ↦
        run-Fits is n m' (ground (arith, e, f)) w.1
          (subst AllFit f (Effect-Fits m m.phase i _ refl w.0 h (effect j endpoint m m.phase i)))
  ]

  -- If no event of the stream is larger than a given size, then whatever inputs a server's task
  -- meets, the journal that it holds, in a bootstrap or in a reconciliation, has at most 1024
  -- events, and its bytes exceed 8 MiB by at most the given size.
  pub journals_bounded :
      (key : InstanceKey) (room : ℕ) (verification : DiscoveryCompletion) (discovery : ℕ)
      (is : List (Input Value)) (m : Server Value)
      → AllWithin is
      → run j endpoint is (start_server key room verification discovery) ≡ some m
      → HasSmallJournal m.phase
  journals_bounded key room verification discovery is m w e =
      run-Fits is (start_server key room verification discovery) m e w tt
