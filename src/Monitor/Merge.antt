-- ===== src/Monitor/Merge.antt =====
-- The reports of both backends as one, `merge_backend_reports` (src/monitor.rs). How fingerprints
-- are merged (src/discovery.rs) is an argument.
pub mod Endpoints
use Prim.Native.Nat.{compare}
use opencode_beacon.Prelude.{
  ℕ, ◌+◌, ◌≤◌, String, Bool, true, false, Option, List, [], ◌∷◌, ◌++◌, ◌||◌, ◌&&◌, not, map, filter,
  any, any-append, count, count-append, if◌then◌else◌, append_text, ◌≡◌, refl, sym, ◌∙◌, ap, arith,
  Bool-cases, inl, inr,
}
use opencode_beacon.Prelude.Order.{
  Cmp, IsOrder, order_by, order_list, order_by-IsOrder, order_list-IsOrder, compare-IsOrder,
}
use opencode_beacon.Prelude.Sort.{sort_by, IsSorted, sort_by-IsSorted, any-sort_by, count-sort_by}
use opencode_beacon.Prelude.Table.{Table, insert, retain}
use opencode_beacon.Model.{SocketAddr, v4, v6, InstanceKey, ServerInstance}
use opencode_beacon.Model.Keys.{instance_key, instance_eq, instance_eq_iff}
use opencode_beacon.Monitor.Pass.{
  DiscoveryBackend, procfs, managed, backend_eq, ConnectionSettings, DiscoveryReport, Discovered,
  reported, refused, same_endpoint,
}

-- `SocketAddr: Ord`: IPv4 first, then the address, the port, and the rest
abbrev pub socket_codes : SocketAddr → List ℕ
socket_codes (v4 a b c d port) = 0 ∷ a ∷ b ∷ c ∷ d ∷ port ∷ []
socket_codes (v6 address port flowinfo scope_id) = 1 ∷ address ∷ port ∷ flowinfo ∷ scope_id ∷ []

abbrev pub by_address : Cmp ServerInstance
by_address = order_by (λ i. socket_codes i.endpoint.socket) (order_list compare)

-- `HashSet::insert` on backends
unfoldable pub insert_backend : DiscoveryBackend → List DiscoveryBackend → List DiscoveryBackend
unfolding any backend_eq
insert_backend b bs = if any (backend_eq b) bs then bs else b ∷ bs

-- `managed_endpoints.contains(&instance.endpoint)`
unfoldable pub is_managed_endpoint : List ServerInstance → ServerInstance → Bool
unfolding any
is_managed_endpoint instances i = any (same_endpoint i) instances

-- `shadowed`
unfoldable pub shadowed : List ServerInstance → List ServerInstance → List InstanceKey
unfolding filter is_managed_endpoint
shadowed managed_instances instances =
    map (λ i. i.key) (filter (is_managed_endpoint managed_instances) instances)

unfoldable pub is_key_of : List InstanceKey → InstanceKey → Bool
unfolding any
is_key_of keys k = any (instance_eq k) keys

unfoldable pub insert_all :
    Table InstanceKey ConnectionSettings
    → Table InstanceKey ConnectionSettings
    → Table InstanceKey ConnectionSettings
unfolding insert
insert_all [] m = m
insert_all ((k, c) ∷ more) m = insert_all more (insert instance_key k c m)

module _ {F : Type 0} (merged : F → F → F) where
  -- The procfs report with the managed one, which takes its endpoints over.
  unfoldable pub merge_reports : DiscoveryReport F → DiscoveryReport F → DiscoveryReport F
  unfolding shadowed is_key_of filter retain insert_all
  merge_reports v1 v2 =
      let hidden = shadowed v2.instances v1.instances in
      record v1 {
        instances = filter (λ i. not (is_key_of hidden i.key)) v1.instances ++ v2.instances;
        connections =
            insert_all v2.connections
              (retain instance_key (λ k c. not (is_key_of hidden k)) v1.connections);
        diagnostics = v1.diagnostics ++ v2.diagnostics;
        listener_fingerprint = merged v1.listener_fingerprint v2.listener_fingerprint;
      }

  -- A report with a backend that failed.
  abbrev pub without : DiscoveryBackend → String → DiscoveryReport F → DiscoveryReport F
  without backend message r = record r {
    diagnostics = r.diagnostics ++ (message ∷ []);
    incomplete_backends = insert_backend backend r.incomplete_backends;
  }

  abbrev pub sorted : DiscoveryReport F → Discovered F
  sorted r = reported (record r { instances = sort_by by_address r.instances })

  unfoldable pub merge_backend_reports : Discovered F → Discovered F → Discovered F
  unfolding merge_reports insert_backend sort_by
  merge_backend_reports (refused left) (refused right) = refused (
      append_text "v1 discovery failed: "
        (append_text left (append_text "; v2 discovery failed: " right)))
  merge_backend_reports (reported v1) (refused error) =
      sorted (without managed (append_text "v2 discovery failed: " error) v1)
  merge_backend_reports (refused error) (reported v2) =
      sorted (without procfs (append_text "v1 discovery failed: " error) v2)
  merge_backend_reports (reported v1) (reported v2) = sorted (merge_reports v1 v2)
