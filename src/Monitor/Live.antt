-- ===== src/Monitor/Live.antt =====
-- What a connection emits: `handle_live_event`, `apply_bootstrap_snapshot_result`,
-- `apply_reconciliation_result` and the functions that they send with (src/monitor.rs).
use opencode_beacon.Prelude.{
  ℕ, String, Bool, true, false, Option, none, some, List, [], ◌∷◌, ◌++◌, map, filter, not, ◌||◌,
  ◌==◌, eqb, if◌then◌else◌, append_text,
}
use opencode_beacon.Model.{InstanceKey, ServerEndpoint, Snapshot, WireEvent, AttentionEvent, ready}
use opencode_beacon.Events.{
  BeaconEvent, initial_state, observed, transition, attention, state_projection, diagnostic,
}
use opencode_beacon.State.Record.{ServerState, active_session_count}
use opencode_beacon.State.Attention.{kind_rank}
use opencode_beacon.State.Json.{Json}
use opencode_beacon.State.Reduce.{
  StateUpdate, apply_event_with_updates, reconcile_replayed_with_updates, reconcile_with_updates,
}
use opencode_beacon.State.View.{observe, projection}
use opencode_beacon.Monitor.Sink.{EventSink, send_all, EventJournal}

unfoldable pub is_state_event : {V : Type 0} → WireEvent V → Bool
is_state_event event =
    event.kind == "session.status"
    || event.kind == "session.execution.failed"
    || event.kind == "session.created"
    || event.kind == "session.updated"
    || event.kind == "session.renamed"
    || event.kind == "session.deleted"
    || event.kind == "permission.asked"
    || event.kind == "permission.replied"
    || event.kind == "question.asked"
    || event.kind == "question.replied"
    || event.kind == "question.rejected"

-- `ServerConnectionState`
pub record ServerConnectionState : Type 0 where
  pub reducer : ServerState
  pub initialized : Bool
  pub reconnect_attempt : ℕ
  pub instance_key_ : Option InstanceKey

-- `ready_emitted` of `handle_live_event`
unfoldable pub ready_roots : List AttentionEvent → List String
unfolding filter
ready_roots events =
    map (λ a. a.root_session_id) (filter (λ a. eqb (kind_rank a.kind) (kind_rank ready)) events)

-- `emit_projection`
unfoldable pub projected : ServerEndpoint → ServerConnectionState → List BeaconEvent
unfolding projection
projected endpoint c = elim c.instance_key_ [
  | none ↦ []
  | some key ↦
      state_projection
        (record { instance_key = key; endpoint = endpoint; sessions = projection c.reducer })
      ∷ []
]

-- `emit_transitions` and `emit_attention`
unfoldable pub updated : ServerEndpoint → StateUpdate → List BeaconEvent
updated endpoint u = map (transition endpoint) u.transitions ++ map (attention endpoint) u.attention

abbrev pub snapshot_failed : ServerEndpoint → String → BeaconEvent
snapshot_failed endpoint error =
    diagnostic (some endpoint) (append_text "snapshot reconciliation failed: " error) false

pub data SnapshotResult : Type 0 where
  received : Snapshot → SnapshotResult
  unavailable : String → SnapshotResult

module _ (j : Json) (endpoint : ServerEndpoint) where
  open j use {Value}

  -- The events that `handle_live_event` sends, in their order.
  unfoldable pub live_events :
      ServerConnectionState → WireEvent Value → StateUpdate → List BeaconEvent
  unfolding observe updated projected is_state_event
  live_events c event update =
      let seen =
        if event.kind == "server.heartbeat" then [] else observed endpoint (observe j event) ∷ [] in
      let view = if is_state_event event then projected endpoint c else [] in
      seen ++ (updated endpoint update ++ view)

  pub record Handled : Type 0 where
    pub connection : ServerConnectionState
    pub sink : EventSink
    pub sent_all : Bool
    pub ready_emitted : List String

  unfoldable pub handle_live_event : ServerConnectionState → EventSink → WireEvent Value → Handled
  unfolding apply_event_with_updates live_events send_all ready_roots
  handle_live_event c k event =
      let (update, reducer) = apply_event_with_updates j c.reducer event in
      let c' = record c { reducer = reducer } in
      let (k', ok) = send_all (live_events c' event update) k in
      record {
        connection = c';
        sink = k';
        sent_all = ok;
        ready_emitted = ready_roots update.attention;
      }

  -- The initial state is announced once; what follows is sent only if that was.
  unfoldable pub announce_snapshot :
      ServerConnectionState → EventSink → StateUpdate → (ServerConnectionState × EventSink) × Bool
  unfolding send_all updated projected active_session_count
  announce_snapshot c k update =
      let rest = updated endpoint update ++ projected endpoint c in
      elim c.initialized [
        | true ↦ let (k', ok) = send_all rest k in ((c, k'), ok)
        | false ↦
            let (k', ok) =
              send_all (initial_state endpoint (active_session_count c.reducer) ∷ []) k in
            elim ok [
              | false ↦ ((c, k'), false)
              | true ↦
                  let (k'', ok') = send_all rest k' in ((record c { initialized = true }, k''), ok')
            ]
      ]

  unfoldable pub apply_reconciliation_result :
      ServerConnectionState
      → EventSink
      → SnapshotResult
      → EventJournal Value
      → (ServerConnectionState × EventSink) × Bool
  unfolding reconcile_replayed_with_updates announce_snapshot send_all
  apply_reconciliation_result c k (unavailable error) journal =
      let (k', ok) = send_all (snapshot_failed endpoint error ∷ []) k in ((c, k'), ok)
  apply_reconciliation_result c k (received snap) journal =
      let (update, reducer) =
        reconcile_replayed_with_updates j c.reducer snap (map (λ e. e.event) journal.events)
          (not c.initialized) journal.ready_emitted in
      announce_snapshot (record c { reducer = reducer }) k update

  -- `reconcile_with_updates` is the reconciliation with nothing to replay.
  unfoldable pub apply_bootstrap_snapshot_result :
      ServerConnectionState
      → EventSink
      → SnapshotResult
      → (ServerConnectionState × EventSink) × Bool
  unfolding reconcile_replayed_with_updates announce_snapshot send_all
  apply_bootstrap_snapshot_result c k (unavailable error) =
      let (k', ok) = send_all (snapshot_failed endpoint error ∷ []) k in ((c, k'), ok)
  apply_bootstrap_snapshot_result c k (received snap) =
      let (update, reducer) = reconcile_with_updates j c.reducer snap (not c.initialized) in
      announce_snapshot (record c { reducer = reducer }) k update
