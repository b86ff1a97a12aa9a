-- ===== src/Lib.antt =====
-- opencode-beacon: discovery and monitoring of local coding-agent sessions (src/*.rs).
--
-- The program reads server events and snapshots, reduces them to a state for each server, and
-- derives transitions, attention events and projections from it.
--
-- Model.antt has the protocol values and public events of src/model.rs. State.antt and its
-- children have the per-server reducer of src/state.rs: Record (`SessionRecord`, `ServerState`),
-- Pending (`upsert_permission`, `remove_permission`, their question twins, `delete_session`), Root
-- (`resolve_root`), Attention (request attention and its order), Ready (ready arms), Reduce
-- (`apply_event_with_updates`, `reconcile_replayed_with_updates` and what they call), View
-- (`projection`, `observe`). The other children hold proofs: Invariant, Frame, Seen, Updates.
--
-- Events.antt has the Claude session values and the events of the monitor, the second half of
-- src/model.rs. Claude.antt has the tracker of src/claude.rs: Tracker (`apply_success`,
-- `apply_failure`); its children hold proofs.
--
-- Memory.antt has the data types of src/memory.rs. Its children are Parse (`parse_start_time`,
-- `parse_unified_cgroup`, `parse_memory_stat`), Resolve (`resolve_scope`, `read_memory_values`),
-- Slope (`slope`, `prune_history`) and Sampler (`CgroupMemorySampler`: `observe`, `register`,
-- `remove`, `purge_unreferenced_scopes`, `sample`), which feeds on the server events of
-- Events.antt. The children of these hold proofs. Each call of the file system is given the files
-- of its own moment (`Files` of Prelude/Files.antt), since other processes change them at any
-- time; a path is the list of its components, and an `Instant` counts nanoseconds from the
-- earliest one.
--
-- Monitor.antt is for src/monitor.rs. Its child Pass has one discovery pass, `discover_once`, on a
-- report of the backends: the replaced and removed servers, the counts of misses, the servers that
-- start, and `publish_discovery_completion`; Backoff has `reconnect_delay`. A sink that closes in
-- the middle of a pass is not modelled. A random factor and the text of an error message are
-- arguments. Sink has the event sink (with the number of events that the receiver still takes, so
-- that a send may fail at any point) and `EventJournal`; Live has what a connection emits
-- (`handle_live_event`, `apply_bootstrap_snapshot_result`, `apply_reconciliation_result`);
-- Merge has `merge_backend_reports`.
-- Gate has the discovery loop, `run_discovery_with`, with the passes of Pass: what asks for a pass,
-- and the settling delays after a change; the timers are inputs, so any order of them is allowed.
-- Connection has the life of a server's task, `run_server` and what it awaits
-- (`bootstrap_connection`, `monitor_connection`, `reconcile_in_flight`, `wait_to_reconnect`), as a
-- machine whose inputs are the branches that a `select` takes. Runs of the machine take any
-- sequence of inputs, in place of the scheduler and the timers; the limit on the items that one
-- turn drains only bounds how long the scheduler stays with the stream. The set-up of the client
-- is not modelled. The children of these hold proofs; Connection/Effect has the one case analysis
-- of the step that the others use.
--
-- Client.antt is for the event stream of src/client.rs. Parse has `parse_frame`, with `from_utf8`,
-- `replace`, `lines` and `split_once` on bytes, and the JSON decoder of an event as a parameter;
-- Frames has `decode_next_frame` with `frame_end_from` and its checks of sizes; Stream has the loop
-- of `source_event_stream_at` over the chunks of a response. The fuel of the decoder is one round
-- more than its buffer has bytes, and so is the stream's between two chunks, which is shown to be
-- enough. The details of an error are left out. The other children hold proofs.
--
-- Of the rest, discovery.rs gives the types of a report only; attachment.rs,
-- dashboard.rs, focus.rs and main.rs are mostly calls of libraries and are not modelled.
--
-- Identifiers and paths are texts, machine integers that are only stored are numbers. A hash map
-- is an association list and a hash set a list of its members; the order of the entries stands for
-- the unspecified order of iteration. JSON values and the decoders of the serde_json crate are
-- the parameter `Json` of State/Json.antt. The walk of `resolve_root` takes one round more than
-- there are sessions, which is shown to be enough.
pub mod Prelude
pub mod Model
pub mod State
pub mod Events
pub mod Claude
pub mod Memory
pub mod Monitor
pub mod Client
pub mod Tests
