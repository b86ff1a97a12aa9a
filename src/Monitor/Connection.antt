-- ===== src/Monitor/Connection.antt =====
-- The life of one server's task as a state machine: `run_server`, `bootstrap_connection`,
-- `monitor_connection`, `reconcile_in_flight`, `process_reconciliation_item` and
-- `wait_to_reconnect` (src/monitor.rs). Each input is a branch that a `select` takes; an input that
-- the machine's phase does not wait for gives no step. Timers and the scheduler choose the order of
-- the inputs, so a run is any sequence of them.
pub mod Effect
pub mod Keeps
pub mod Runs
pub mod Counts
pub mod Once
pub mod Initial
pub mod Delivered
pub mod Complete
pub mod Order
pub mod Bounds
pub mod Reconnect
use opencode_beacon.Prelude.{
  ℕ, ◌+◌, String, Bool, true, false, Option, none, some, List, [], ◌∷◌, ◌++◌, map, any, not, ◌||◌,
  ◌&&◌, leb, ltb, if◌then◌else◌, is_some_and, append_text,
}
use opencode_beacon.Prelude.Maps.{set_extend}
use opencode_beacon.Model.{InstanceKey, ServerEndpoint, WireEvent}
use opencode_beacon.Model.Keys.{instance_eq}
use opencode_beacon.Events.{BeaconEvent, connected, disconnected}
use opencode_beacon.State.Record.{default_state}
use opencode_beacon.State.Json.{Json}
use opencode_beacon.Monitor.Pass.{DiscoveryCompletion}
use opencode_beacon.Monitor.Sink.{
  EventSink, send_all, SourceEvent, EventJournal, new_journal, can_poll, push_event,
}
use opencode_beacon.Monitor.Live.{
  is_state_event, ServerConnectionState, SnapshotResult, received, unavailable, handle_live_event,
  Handled, apply_reconciliation_result, apply_bootstrap_snapshot_result,
}

-- What `stream.next()` answers.
pub data Item (V : Type 0) : Type 0 where
  arrived : SourceEvent V → Item V
  stream_error : String → Item V
  stream_end : Item V

-- The triggers that are ready when a snapshot arrives; `none` for a resync channel that is closed.
pub record Triggers : Type 0 where
  pub periodic_ready : Bool
  pub manual_ready : Option Bool
  pub coalesced_ready : Bool

pub data Input (V : Type 0) : Type 0 where
  -- a shutdown, a cancellation, or a receiver that is closed
  stop : Input V
  stream_opened : Input V
  stream_refused : String → Input V
  next_item : Item V → Input V
  snapshot_done : SnapshotResult → Triggers → Input V
  periodic_tick : Input V
  resync_changed resync_closed : Input V
  coalesce_elapsed : Input V
  delay_elapsed : Input V
  verified : DiscoveryCompletion → Input V
  verification_closed : Input V

pub data Phase (V : Type 0) : Type 0 where
  -- `client.event_stream()` is awaited
  connecting : Phase V
  -- the first snapshot is awaited, and events are buffered
  bootstrapping : EventJournal V → Phase V
  live : Phase V
  -- a snapshot is awaited; the flag asks for another one after it
  reconciling : EventJournal V → Bool → Phase V
  -- the generation at the disconnect, and whether the delay is over
  waiting : ℕ → Bool → Phase V
  ended : Phase V

pub record Server (V : Type 0) : Type 0 where
  pub connection : ServerConnectionState
  pub sink : EventSink
  pub coalesced : Bool
  pub phase : Phase V
  -- the values of the watch channels
  pub verification : DiscoveryCompletion
  pub discovery : ℕ

abbrev pub attempt_max : ℕ
attempt_max = 4294967295

-- `u32::saturating_add(1)`
abbrev pub next_attempt : ℕ → ℕ
next_attempt n = if leb attempt_max n then attempt_max else n + 1

abbrev pub in_phase : {V : Type 0} → Phase V → Server V → Server V
in_phase p m = record m { phase = p }

-- `request_discovery`: `wrapping_add(1)` on `u64`
abbrev pub next_request : ℕ → ℕ
next_request n = if leb 18446744073709551615 n then 0 else n + 1

-- `record_disconnect`
unfoldable pub record_disconnect : {V : Type 0} → Server V → ℕ × Server V
record_disconnect m = (m.verification.generation, record m { discovery = next_request m.discovery })

-- The condition under which `wait_to_reconnect` returns true.
unfoldable pub may_reconnect : {V : Type 0} → Server V → ℕ → Bool → Bool
unfolding instance_eq
may_reconnect m generation elapsed =
    is_some_and m.verification.key (λ k. is_some_and m.connection.instance_key_ (instance_eq k))
    && ltb generation m.verification.generation
    && elapsed

-- One look of `wait_to_reconnect` at the current completion.
unfoldable pub look : {V : Type 0} → Server V → ℕ → Bool → Server V
unfolding may_reconnect
look m generation elapsed =
    if may_reconnect m generation elapsed
    then record m {
      phase = connecting;
      coalesced = false;
      connection = record m.connection {
        reconnect_attempt = next_attempt m.connection.reconnect_attempt;
      };
    }
    else in_phase (waiting generation elapsed) m

abbrev pub receiver_closed : String
receiver_closed = "event receiver closed"

module _ (j : Json) (endpoint : ServerEndpoint) where
  open j use {Value}

  -- The connection failed: the task disconnects, and waits.
  unfoldable pub disconnect : String → Server Value → Server Value
  unfolding record_disconnect send_all look
  disconnect reason m =
      let (generation, m') = record_disconnect m in
      let (sink, ok) = send_all (disconnected endpoint reason ∷ []) m'.sink in
      let m'' = record m' { sink = sink } in
      elim ok [ false ↦ in_phase ended m'' | true ↦ look m'' generation false ]

  -- A live event is handled; the machine goes on if everything was sent.
  unfoldable pub handle : WireEvent Value → Server Value → Server Value × Bool
  unfolding handle_live_event
  handle event m =
      let h = handle_live_event j endpoint m.connection m.sink event in
      (record m { connection = h.connection; sink = h.sink }, h.sent_all)

  unfoldable pub handle_all : List (SourceEvent Value) → Server Value → Server Value × Bool
  unfolding handle
  handle_all [] m = (m, true)
  handle_all (e ∷ es) m =
      let (m', ok) = handle e.event m in elim ok [ false ↦ (m', false) | true ↦ handle_all es m' ]

  -- After the first snapshot, or after the stream failed before it: the buffered events.
  unfoldable pub finish_bootstrap : EventJournal Value → Option String → Server Value → Server Value
  unfolding handle_all any is_state_event disconnect
  finish_bootstrap journal terminal_error m =
      let (m', ok) = handle_all journal.events m in
      elim ok [
        | false ↦ disconnect receiver_closed m'
        | true ↦ elim terminal_error [
          | some error ↦ disconnect error m'
          | none ↦ record m' {
            phase = live;
            coalesced = any (λ e. is_state_event e.event) journal.events;
          }
        ]
      ]

  unfoldable pub bootstrap_snapshot :
      EventJournal Value → SnapshotResult → Server Value → Server Value
  unfolding apply_bootstrap_snapshot_result disconnect finish_bootstrap
  bootstrap_snapshot journal result m =
      let ((connection, sink), ok) =
        apply_bootstrap_snapshot_result j endpoint m.connection m.sink result in
      let succeeded = record connection { reconnect_attempt = 0 } in
      let m' = record m {
        connection = elim result [ received snap ↦ succeeded | unavailable e ↦ connection ];
        sink = sink;
      } in
      elim ok [
        | false ↦ disconnect receiver_closed (record m' { connection = connection })
        | true ↦ finish_bootstrap journal none m'
      ]

  -- `process_reconciliation_item` on an event
  unfoldable pub reconcile_event :
      EventJournal Value → Bool → SourceEvent Value → Server Value → Server Value
  unfolding push_event is_state_event handle_live_event set_extend disconnect
  reconcile_event journal rerun e m =
      let state_event = is_state_event e.event in
      let pushed = if state_event then push_event e journal else journal in
      let h = handle_live_event j endpoint m.connection m.sink e.event in
      let m' = record m { connection = h.connection; sink = h.sink } in
      elim h.sent_all [
        | false ↦ disconnect receiver_closed m'
        | true ↦ record m' {
          phase =
              reconciling
                (record pushed { ready_emitted = set_extend h.ready_emitted pushed.ready_emitted })
                rerun;
          coalesced = m.coalesced || state_event;
        }
      ]

  -- `drain_ready_reconciliation_triggers`, and the snapshot is applied.
  unfoldable pub reconcile_snapshot :
      EventJournal Value → Bool → SnapshotResult → Triggers → Server Value → Server Value
  unfolding apply_reconciliation_result disconnect
  reconcile_snapshot journal rerun result t m = elim t.manual_ready [
    | none ↦ in_phase ended m
    | some manual ↦
        let again = rerun || t.periodic_ready || manual || (m.coalesced && t.coalesced_ready) in
        let ((connection, sink), ok) =
          apply_reconciliation_result j endpoint m.connection m.sink result journal in
        let m' = record m {
          connection = connection;
          sink = sink;
          coalesced = m.coalesced && not t.coalesced_ready;
        } in
        elim ok [
          | false ↦ disconnect receiver_closed m'
          | true ↦ in_phase (if again then reconciling new_journal false else live) m'
        ]
  ]

  -- `monitor_connection` on an event
  unfoldable pub live_event : SourceEvent Value → Server Value → Server Value
  unfolding handle is_state_event disconnect
  live_event e m =
      let (m', ok) = handle e.event m in
      elim ok [
        | false ↦ disconnect receiver_closed m'
        | true ↦ record m' { coalesced = m.coalesced || is_state_event e.event }
      ]

  -- The stream is open: the connection is announced, and the first snapshot is asked for.
  unfoldable pub open_stream : Server Value → Server Value
  unfolding send_all disconnect
  open_stream m =
      let (sink, ok) = send_all (connected endpoint ∷ []) m.sink in
      let m' = record m { sink = sink } in
      elim ok [
        | false ↦ disconnect receiver_closed m'
        | true ↦ in_phase (bootstrapping new_journal) m'
      ]

  -- What the phase does with an input; `none` where it does not wait for it.
  unfoldable pub step_in : Phase Value → Input Value → Server Value → Option (Server Value)
  unfolding open_stream can_poll push_event disconnect finish_bootstrap bootstrap_snapshot
      live_event reconcile_event reconcile_snapshot look
  step_in ended i m = none
  step_in connecting stop m = some (in_phase ended m)
  step_in connecting (stream_refused error) m = some (disconnect error m)
  step_in connecting stream_opened m = some (open_stream m)
  step_in (bootstrapping journal) stop m = some (in_phase ended m)
  step_in (bootstrapping journal) (snapshot_done result t) m =
      some (bootstrap_snapshot journal result m)
  step_in (bootstrapping journal) (next_item item) m = elim (can_poll journal) [
    | false ↦ none
    | true ↦ elim item [
      | arrived e ↦ some (in_phase (bootstrapping (push_event e journal)) m)
      | stream_error error ↦ some (finish_bootstrap journal (some error) m)
      | stream_end ↦ some (finish_bootstrap journal (some "SSE stream ended during bootstrap") m)
    ]
  ]
  step_in live stop m = some (in_phase ended m)
  step_in live (next_item (arrived e)) m = some (live_event e m)
  step_in live (next_item (stream_error error)) m = some (disconnect error m)
  step_in live (next_item stream_end) m = some (disconnect "SSE stream ended" m)
  step_in live periodic_tick m = some (in_phase (reconciling new_journal false) m)
  step_in live resync_changed m = some (in_phase (reconciling new_journal false) m)
  step_in live resync_closed m = some (in_phase ended m)
  step_in live coalesce_elapsed m = elim m.coalesced [
    | false ↦ none
    | true ↦ some (record m { coalesced = false; phase = reconciling new_journal false })
  ]
  step_in (reconciling journal rerun) stop m = some (in_phase ended m)
  step_in (reconciling journal rerun) (next_item item) m = elim (can_poll journal) [
    | false ↦ none
    | true ↦ elim item [
      | arrived e ↦ some (reconcile_event journal rerun e m)
      | stream_error error ↦ some (disconnect error m)
      | stream_end ↦ some (disconnect "SSE stream ended during reconciliation" m)
    ]
  ]
  step_in (reconciling journal rerun) (snapshot_done result t) m =
      some (reconcile_snapshot journal rerun result t m)
  step_in (reconciling journal rerun) periodic_tick m = some (in_phase (reconciling journal true) m)
  step_in (reconciling journal rerun) resync_changed m =
      some (in_phase (reconciling journal true) m)
  step_in (reconciling journal rerun) resync_closed m = some (in_phase ended m)
  step_in (reconciling journal rerun) coalesce_elapsed m = elim m.coalesced [
    | false ↦ none
    | true ↦ some (record m { coalesced = false; phase = reconciling journal true })
  ]
  step_in (waiting generation elapsed) stop m = some (in_phase ended m)
  step_in (waiting generation elapsed) delay_elapsed m = elim elapsed [
    | true ↦ none
    | false ↦ some (look m generation true)
  ]
  step_in (waiting generation elapsed) (verified completion) m =
      some (look (record m { verification = completion }) generation elapsed)
  step_in (waiting generation elapsed) verification_closed m = some (in_phase ended m)
  -- In the other phases the watch channel takes a value that is not looked at.
  step_in phase (verified completion) m =
      some (record m { phase = phase; verification = completion })
  step_in phase i m = none

  unfoldable pub step : Input Value → Server Value → Option (Server Value)
  unfolding step_in
  step i m = step_in m.phase i m
