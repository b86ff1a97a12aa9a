-- ===== src/Tests/Monitor.antt =====
-- A discovery pass that finds a managed server at the endpoint of an active one.
use opencode_beacon.Monitor.Backoff.{reconnect_delay, reconnect_delay_bounded}
use opencode_beacon.Prelude.{
  ◌≤◌, ◌<◌, ◌+◌, ℕ, none, some, List, eqb, false, [], ◌∷◌, ◌≡◌, refl, arith,
}
use opencode_beacon.Prelude.Table.{insert, remove}
use opencode_beacon.Model.{
  ServerInstance, InstanceSource, linux_procfs, managed_service, v4, protocol_v1,
}
use opencode_beacon.Events.{server_found, server_removed}
use opencode_beacon.Monitor.Pass.{
  DiscoveryReport, reported, refused, Active, ConnectionSettings, discover_once, started, is_taken,
}
use opencode_beacon.Model.Keys.{socket_eq, instance_eq}
use opencode_beacon.Monitor.Merge.{merge_backend_reports}
use opencode_beacon.Monitor.Merge.Endpoints.{IsMerge, merge_backend_reports-IsMerge}
use opencode_beacon.Monitor.Gate.{Gate, start_gate, Wake, pass, gate_tick, settled, wake_all}
use opencode_beacon.Monitor.Gate.Settling.{settling_in_range}
use opencode_beacon.Monitor.Pass.Invariant.{
  AreActive, discover_once-AreActive, start-AreActive, empty-AreActive,
}

abbrev server_from : InstanceSource → ServerInstance
server_from source = record {
  key = record {
    network_namespace_inode = 1;
    socket_inode = 2;
    listener = v4 127 0 0 1 4096;
    pid = 7;
    source = source;
  };
  endpoint = record { socket = v4 127 0 0 1 4096 };
  protocol = protocol_v1;
  executable = none;
  version = "1.17.0";
}

abbrev old_server : ServerInstance
old_server = server_from linux_procfs

abbrev new_server : ServerInstance
new_server = server_from (managed_service "/run/service.json" none)

abbrev settings : ConnectionSettings
settings = record { auth = none }

abbrev report : DiscoveryReport ℕ
report = record {
  instances = new_server ∷ [];
  diagnostics = [];
  listener_fingerprint = 5;
  connections = (new_server.key, settings) ∷ [];
  incomplete_backends = [];
}

abbrev before : Active
before = (old_server.key, started 0 old_server settings) ∷ []

nothing_taken : is_taken [] old_server ≡ false
unfolding is_taken
nothing_taken = refl

before-AreActive : AreActive before
unfolding insert remove
before-AreActive = start-AreActive 0 old_server settings [] nothing_taken empty-AreActive

replaced_run :
    (discover_once (λ e. e) (reported report) 1 0 before).events
    ≡ server_removed old_server ∷ server_found new_server ∷ []
unfolding discover_once
replaced_run = refl

discover_once-AreActive_example :
    AreActive (discover_once (λ e. e) (reported report) 1 0 before).active
discover_once-AreActive_example =
    discover_once-AreActive (λ e. e) (reported report) 1 0 before before-AreActive

abbrev passes : List (Wake ℕ)
passes =
    pass none false (reported report)
    ∷ settled
    ∷ pass none false (refused "unreadable")
    ∷ gate_tick (some 5)
    ∷ []

abbrev after_passes : Gate ℕ
after_passes = elim (wake_all eqb (eqb 0) (λ e. e) passes start_gate) [
  | none ↦ start_gate
  | some g ↦ g
]

passes_run : wake_all eqb (eqb 0) (λ e. e) passes start_gate ≡ some after_passes
unfolding wake_all
passes_run = refl

second_delay : after_passes.settling ≡ some 1
unfolding wake_all
second_delay = refl

settling_in_range_example : 1 < 3
settling_in_range_example =
    settling_in_range eqb (eqb 0) (λ e. e) passes after_passes 1 passes_run second_delay

abbrev v1_report : DiscoveryReport ℕ
v1_report = record report { instances = old_server ∷ []; connections = [] }

-- The managed server takes the endpoint over.
merge_run :
    merge_backend_reports (λ a b. a + b) (reported v1_report) (reported report)
    ≡ reported (record report { listener_fingerprint = 10 })
unfolding merge_backend_reports socket_eq instance_eq
merge_run = refl

merge_backend_reports-IsMerge_example :
    (r : DiscoveryReport ℕ) × (merge_backend_reports
        (λ a b. a + b)
        (reported v1_report)
        (reported report)
      ≡ reported r)
    × IsMerge v1_report.instances report.instances r.instances
merge_backend_reports-IsMerge_example =
    merge_backend_reports-IsMerge (λ a b. a + b) v1_report report

reconnect_delay_bounded_example : (800 ≤ reconnect_delay 9 1000) × (reconnect_delay 9 1000 ≤ 36000)
reconnect_delay_bounded_example = reconnect_delay_bounded 9 1000 (omega arith) (omega arith)

delay_run : reconnect_delay 3 1000 ≡ 8000
unfolding reconnect_delay
delay_run = refl
