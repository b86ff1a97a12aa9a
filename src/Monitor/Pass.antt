-- ===== src/Monitor/Pass.antt =====
-- One pass of the discovery loop, `discover_once` (src/monitor.rs), on the report of the backends
-- (src/discovery.rs), while the event sink is open and no shutdown is asked for. The handles of an
-- active server's task are left out; the value of its `verification` channel is kept.
pub mod Invariant
use opencode_beacon.Prelude.{
  ℕ, ◌+◌, String, Bool, true, false, Option, none, some, List, [], ◌∷◌, ◌++◌, map, filter, any, not,
  ◌&&◌, ◌||◌, ◌==◌, eqb, leb, if◌then◌else◌, is_some, is_some_and,
}
use opencode_beacon.Prelude.Table.{Table, lookup, insert, remove, map_values}
use opencode_beacon.Model.{
  InstanceKey, InstanceSource, linux_procfs, managed_service, ServerInstance, ServerEndpoint,
}
use opencode_beacon.Model.Keys.{instance_key, instance_eq, socket_eq}
use opencode_beacon.Events.{BeaconEvent, server_found, server_removed, diagnostic}

pub data DiscoveryBackend : Type 0 where
  procfs managed : DiscoveryBackend

unfoldable pub backend_eq : DiscoveryBackend → DiscoveryBackend → Bool
backend_eq procfs procfs = true
backend_eq managed managed = true
backend_eq procfs managed = false
backend_eq managed procfs = false

pub record BasicAuth : Type 0 where
  pub username : String
  pub password : String

pub record ConnectionSettings : Type 0 where
  pub auth : Option BasicAuth

-- `==` on connection settings
unfoldable pub connection_eq : ConnectionSettings → ConnectionSettings → Bool
connection_eq a b = elim a.auth [
  | none ↦ not (is_some b.auth)
  | some x ↦ is_some_and b.auth (λ y. x.username == y.username && x.password == y.password)
]

-- The fingerprint of the listener table is only passed on.
pub record DiscoveryReport (F : Type 0) : Type 0 where
  pub instances : List ServerInstance
  pub diagnostics : List String
  pub listener_fingerprint : F
  pub connections : Table InstanceKey ConnectionSettings
  pub incomplete_backends : List DiscoveryBackend

pub record DiscoveryCompletion : Type 0 where
  pub generation : ℕ
  pub key : Option InstanceKey

pub record ActiveServer : Type 0 where
  pub instance_ : ServerInstance
  pub connection : ConnectionSettings
  pub misses : ℕ
  pub verification : DiscoveryCompletion

abbrev pub Active : Type 0
Active = Table InstanceKey ActiveServer

abbrev pub backend_for : InstanceSource → DiscoveryBackend
backend_for linux_procfs = procfs
backend_for (managed_service registration id) = managed

abbrev pub is_managed : InstanceSource → Bool
is_managed linux_procfs = false
is_managed (managed_service registration id) = true

abbrev pub same_endpoint : ServerInstance → ServerInstance → Bool
same_endpoint a b = socket_eq a.endpoint.socket b.endpoint.socket

-- `incomplete_backends.contains(&backend_for(&server.instance.key.source))`
unfoldable pub is_incomplete : List DiscoveryBackend → ActiveServer → Bool
unfolding any backend_eq
is_incomplete backends s = any (backend_eq (backend_for s.instance_.key.source)) backends

-- `found.contains(key)`
unfoldable pub is_found : List ServerInstance → InstanceKey → Bool
unfolding any instance_eq
is_found instances k = any (λ i. instance_eq i.key k) instances

-- The server's connection changed, or another instance has its endpoint.
unfoldable pub is_superseded : {F : Type 0} → DiscoveryReport F → ActiveServer → Bool
unfolding any instance_eq socket_eq lookup connection_eq is_incomplete
is_superseded report s =
    any
      (λ i.
        (instance_eq i.key s.instance_.key
          && is_some_and (lookup instance_key i.key report.connections)
              (λ c. not (connection_eq c s.connection)))
        || (same_endpoint i s.instance_
            && not (instance_eq i.key s.instance_.key)
            && (is_managed i.key.source || not (is_incomplete report.incomplete_backends s))))
      report.instances

-- The keys of the servers that pass a test, and their removal, each announced.
unfoldable pub servers_where : (ActiveServer → Bool) → Active → List InstanceKey
unfolding filter
servers_where p active = map (λ e. e.0) (filter (λ e. p e.1) active)

unfoldable pub stop_servers : List InstanceKey → Active → List BeaconEvent × Active
unfolding lookup remove
stop_servers [] active = ([], active)
stop_servers (k ∷ ks) active =
    let (events, active') = stop_servers ks (remove instance_key k active) in
    (
      elim (lookup instance_key k active) [
        | none ↦ events
        | some s ↦ server_removed s.instance_ ∷ events
      ],
      active',
    )

-- `u8::saturating_add(1)`
abbrev pub one_more : ℕ → ℕ
one_more n = if leb 255 n then 255 else n + 1

unfoldable pub count_miss : {F : Type 0} → DiscoveryReport F → ActiveServer → ActiveServer
unfolding is_found is_incomplete
count_miss report s =
    if is_found report.instances s.instance_.key
    then record s { misses = 0 }
    else if is_incomplete report.incomplete_backends s
    then s
    else if is_managed s.instance_.key.source
    then record s { misses = 2 }
    else record s { misses = one_more s.misses }

abbrev pub started : ℕ → ServerInstance → ConnectionSettings → ActiveServer
started completed i c = record {
  instance_ = i;
  connection = c;
  misses = 0;
  verification = record { generation = completed; key = none };
}

-- The instance is known already, or another server is active at its endpoint.
unfoldable pub is_taken : Active → ServerInstance → Bool
unfolding lookup any socket_eq
is_taken active i =
    is_some (lookup instance_key i.key active) || any (λ e. same_endpoint e.1.instance_ i) active

-- The loop over the instances of the report.
unfoldable pub start_servers :
    ℕ
    → List ServerInstance
    → Table InstanceKey ConnectionSettings
    → Active
    → List BeaconEvent × Active
unfolding is_taken lookup remove insert
start_servers completed [] connections active = ([], active)
start_servers completed (i ∷ is) connections active =
    let skipped = start_servers completed is connections active in
    elim (is_taken active i) [
      | true ↦ skipped
      | false ↦ elim (lookup instance_key i.key connections) [
        | none ↦ (
          diagnostic (some i.endpoint) "discovery omitted private connection settings" false
              ∷ skipped.0,
          skipped.1,
        )
        | some c ↦
            let (events, active') =
              start_servers completed is (remove instance_key i.key connections)
                (insert instance_key i.key (started completed i c) active) in
            (server_found i ∷ events, active')
      ]
    ]

unfoldable pub publish_discovery_completion : List ServerInstance → ℕ → Active → Active
unfolding map_values is_found
publish_discovery_completion instances generation = map_values instance_key (λ s. record s {
  verification = record {
    generation = generation;
    key = if is_found instances s.instance_.key then some s.instance_.key else none;
  };
})

-- What a pass leaves: its events, the active servers, the completed generation, and the
-- fingerprint if there is one.
pub record Outcome (F : Type 0) : Type 0 where
  pub events : List BeaconEvent
  pub active : Active
  pub completed_generation : ℕ
  pub fingerprint : Option F

-- What discovery returns: a report, or the message of its error.
pub data Discovered (F : Type 0) : Type 0 where
  reported : DiscoveryReport F → Discovered F
  refused : String → Discovered F

-- The pass on a report, before it publishes its completion.
unfoldable pub update_servers :
    {F : Type 0} → DiscoveryReport F → ℕ → Active → List BeaconEvent × Active
unfolding is_superseded servers_where stop_servers count_miss map_values start_servers
update_servers report completed active =
    let (replaced, active1) = stop_servers (servers_where (is_superseded report) active) active in
    let active2 = map_values instance_key (count_miss report) active1 in
    let (found, active3) = start_servers completed report.instances report.connections active2 in
    let (removed, active4) = stop_servers (servers_where (λ s. leb 2 s.misses) active3) active3 in
    (replaced ++ found ++ removed, active4)

unfoldable pub discover_once :
    {F : Type 0} → (String → String) → Discovered F → ℕ → ℕ → Active → Outcome F
unfolding update_servers publish_discovery_completion
discover_once failure (refused error) generation completed active = record {
  events = diagnostic none (failure error) false ∷ [];
  active = active;
  completed_generation = completed;
  fingerprint = none;
}
discover_once failure (reported report) generation completed active =
    let (events, active') = update_servers report completed active in
    record {
      events = map (λ m. diagnostic none m true) report.diagnostics ++ events;
      active = publish_discovery_completion report.instances generation active';
      completed_generation = generation;
      fingerprint = some report.listener_fingerprint;
    }
