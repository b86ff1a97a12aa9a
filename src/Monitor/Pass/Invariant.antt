-- ===== src/Monitor/Pass/Invariant.antt =====
-- The active servers between two passes of discovery (src/monitor.rs).
use opencode_beacon.Prelude.{
  ℕ, String, Bool, true, false, some, List, [], ◌∷◌, any, ◌||◌, leb, is_some, ◌≡◌, refl, sym, ◌∙◌,
  ap, arith, Bool-cases, Option-cases, inl, inr, ◌⊎◌,
}
use opencode_beacon.Prelude.Table.{
  Table, lookup, insert, remove, map_values, HasUniqueKeys, lookup-insert, lookup-remove,
  lookup-map_values, insert-HasUniqueKeys, remove-HasUniqueKeys, map_values-HasUniqueKeys,
}
use opencode_beacon.Model.{InstanceKey, ServerInstance}
use opencode_beacon.Model.Keys.{instance_key, instance_eq, instance_eq_iff, socket_eq_iff}
use opencode_beacon.Monitor.Pass.{
  DiscoveryReport, ConnectionSettings, ActiveServer, Active, same_endpoint, is_superseded,
  servers_where, stop_servers, count_miss, started, is_taken, start_servers,
  publish_discovery_completion, Discovered, reported, refused, update_servers, discover_once,
}

-- One server for each instance, under its own key, and at most one at each endpoint.
pub record AreActive (active : Active) : Type 0 where
  pub unique : HasUniqueKeys instance_key active
  pub keyed :
      (k : InstanceKey) (s : ActiveServer)
      → lookup instance_key k active ≡ some s
      → s.instance_.key ≡ k
  pub distinct :
      (j k : InstanceKey) (s t : ActiveServer)
      → lookup instance_key j active ≡ some s
      → lookup instance_key k active ≡ some t
      → same_endpoint s.instance_ t.instance_ ≡ true
      → j ≡ k

remove-AreActive :
    (k : InstanceKey) (active : Active)
    → AreActive active
    → AreActive (remove instance_key k active)
remove-AreActive k active v = record {
  unique = remove-HasUniqueKeys instance_key k active v.unique;
  keyed = λ j s e. v.keyed j s (ground (arith, e, lookup-remove instance_key k j active));
  distinct = λ i j s t e f h.
      v.distinct i j s t (ground (arith, e, lookup-remove instance_key k i active))
        (ground (arith, f, lookup-remove instance_key k j active)) h;
}

stop_servers-AreActive :
    (ks : List InstanceKey) (active : Active)
    → AreActive active
    → AreActive (stop_servers ks active).1
unfolding stop_servers
stop_servers-AreActive [] active v = v
stop_servers-AreActive (k ∷ ks) active v =
    stop_servers-AreActive ks (remove instance_key k active) (remove-AreActive k active v)

-- A change of every server that keeps its instance.
mapped :
    (f : ActiveServer → ActiveServer) (active : Active) (k : InstanceKey) (s : ActiveServer)
    → ((a : ActiveServer) → (f a).instance_ ≡ a.instance_)
    → lookup instance_key k (map_values instance_key f active) ≡ some s
    → (a : ActiveServer) × (lookup instance_key k active ≡ some a) × (a.instance_ ≡ s.instance_)
mapped f active k s same e = elim (Option-cases (lookup instance_key k active)) [
  | inl g ↦ absurd (ground (arith, e, g, lookup-map_values instance_key f k active))
  | inr (a, g) ↦
      let image : f a ≡ s = ground (arith, e, g, lookup-map_values instance_key f k active) in
      (a, g, sym (same a) ∙ ap (λ x. x.instance_) image)
]

map_values-AreActive :
    (f : ActiveServer → ActiveServer) (active : Active)
    → ((a : ActiveServer) → (f a).instance_ ≡ a.instance_)
    → AreActive active
    → AreActive (map_values instance_key f active)
map_values-AreActive f active same v = record {
  unique = map_values-HasUniqueKeys instance_key f active v.unique;
  keyed = λ k s e.
      let (a, g, h) = mapped f active k s same e in sym (ap (λ x. x.key) h) ∙ v.keyed k a g;
  distinct = λ j k s t e e' h.
      let (a, g, i) = mapped f active j s same e in
      let (b, g', i') = mapped f active k t same e' in
      v.distinct j k a b g g'
        (ap (λ x. same_endpoint x b.instance_) i ∙ ap (same_endpoint s.instance_) i' ∙ h);
}

count_miss-instance :
    {F : Type 0} (report : DiscoveryReport F) (a : ActiveServer)
    → (count_miss report a).instance_ ≡ a.instance_
unfolding count_miss
count_miss-instance report a = ground arith

any-lookup :
    (p : ActiveServer → Bool) (k : InstanceKey) (s : ActiveServer) (active : Active)
    → lookup instance_key k active ≡ some s
    → any (λ e. p e.1) active ≡ false
    → p s ≡ false
unfolding any lookup
any-lookup p k s [] e h = cc
any-lookup p k s ((j, a) ∷ active) e h = elim (Bool-cases (instance_eq j k)) [
  | inl same ↦
      let here : a ≡ s = ground (arith, e, same) in
      let outside : p a ≡ false = ground (arith, h) in ap p (sym here) ∙ outside
  | inr other ↦ any-lookup p k s active (ground (arith, e, other)) (ground (arith, h))
]

taken-cases :
    (active : Active) (i : ServerInstance)
    → is_taken active i ≡ (
        is_some (lookup instance_key i.key active)
        || any (λ e. same_endpoint e.1.instance_ i) active)
unfolding is_taken
taken-cases active i = refl

endpoint_sym : (a b : ServerInstance) → same_endpoint a b ≡ true → same_endpoint b a ≡ true
endpoint_sym a b h = ground (
  arith,
  h,
  socket_eq_iff a.endpoint.socket b.endpoint.socket,
  socket_eq_iff b.endpoint.socket a.endpoint.socket,
)

inserted :
    (j k : InstanceKey) (new s : ActiveServer) (active : Active)
    → lookup instance_key k (insert instance_key j new active) ≡ some s
    → ((j ≡ k) × (new ≡ s)) ⊎ (lookup instance_key k active ≡ some s)
inserted j k new s active e = elim (Bool-cases (instance_eq j k)) [
  | inl same ↦ inl (
    (instance_eq_iff j k).0 same,
    ground (arith, e, same, lookup-insert instance_key j k new active),
  )
  | inr other ↦ inr (ground (arith, e, other, lookup-insert instance_key j k new active))
]

-- No active server has the endpoint of an instance that is not taken.
endpoint_free :
    (active : Active) (i : ServerInstance) (k : InstanceKey) (s : ActiveServer)
    → is_taken active i ≡ false
    → lookup instance_key k active ≡ some s
    → same_endpoint s.instance_ i ≡ true
    → i.key ≡ k
endpoint_free active i k s free e h =
    let none_there : any (λ x. same_endpoint x.1.instance_ i) active ≡ false =
      ground (arith, free, taken-cases active i) in
    let apart = any-lookup (λ a. same_endpoint a.instance_ i) k s active e none_there in
    absurd (ground (arith, h, apart))

pub start-AreActive :
    (completed : ℕ) (i : ServerInstance) (c : ConnectionSettings) (active : Active)
    → is_taken active i ≡ false
    → AreActive active
    → AreActive (insert instance_key i.key (started completed i c) active)
start-AreActive completed i c active free v =
    let new = started completed i c in
    record {
      unique = insert-HasUniqueKeys instance_key i.key new active v.unique;
      keyed = λ k s e. elim (inserted i.key k new s active e) [
        | inl (at, same) ↦ ap (λ x. x.instance_.key) (sym same) ∙ at
        | inr old ↦ v.keyed k s old
      ];
      distinct = λ j k s t e f h. elim (inserted i.key j new s active e) [
        | inl (at, same) ↦ elim (inserted i.key k new t active f) [
          | inl (at', same') ↦ sym at ∙ at'
          | inr old' ↦
              let met = ap (λ x. same_endpoint x.instance_ t.instance_) same ∙ h in
              sym at ∙ endpoint_free active i k t free old' (endpoint_sym i t.instance_ met)
        ]
        | inr old ↦ elim (inserted i.key k new t active f) [
          | inl (at', same') ↦
              let met = ap (λ x. same_endpoint s.instance_ x.instance_) same' ∙ h in
              sym (endpoint_free active i j s free old met) ∙ at'
          | inr old' ↦ v.distinct j k s t old old' h
        ]
      ];
    }

start_servers-AreActive :
    (completed : ℕ) (is : List ServerInstance) (connections : Table InstanceKey ConnectionSettings)
    (active : Active)
    → AreActive active
    → AreActive (start_servers completed is connections active).1
unfolding start_servers
start_servers-AreActive completed [] connections active v = v
start_servers-AreActive completed (i ∷ is) connections active v =
    elim (Bool-cases (is_taken active i)) [
      | inl taken ↦
          rw (taken, start_servers) (start_servers-AreActive completed is connections active v)
      | inr free ↦ elim (Option-cases (lookup instance_key i.key connections)) [
        | inl e ↦
            rw (free, e, start_servers) (start_servers-AreActive completed is connections active v)
        | inr (c, e) ↦
            rw (free, e, start_servers)
              (start_servers-AreActive completed is (remove instance_key i.key connections)
                (insert instance_key i.key (started completed i c) active)
                (start-AreActive completed i c active free v))
      ]
    ]

update_servers-AreActive :
    {F : Type 0} (report : DiscoveryReport F) (completed : ℕ) (active : Active)
    → AreActive active
    → AreActive (update_servers report completed active).1
unfolding update_servers
update_servers-AreActive report completed active v =
    let replaced = servers_where (is_superseded report) active in
    let active1 = (stop_servers replaced active).1 in
    let active2 = map_values instance_key (count_miss report) active1 in
    let active3 = (start_servers completed report.instances report.connections active2).1 in
    stop_servers-AreActive (servers_where (λ s. leb 2 s.misses) active3) active3 (
      start_servers-AreActive completed report.instances report.connections active2 (
        map_values-AreActive (count_miss report) active1 (count_miss-instance report)
          (stop_servers-AreActive replaced active v)))

publish-AreActive :
    (instances : List ServerInstance) (generation : ℕ) (active : Active)
    → AreActive active
    → AreActive (publish_discovery_completion instances generation active)
unfolding publish_discovery_completion
publish-AreActive instances generation active v = map_values-AreActive _ active (λ a. refl) v

-- A discovery pass keeps the invariant of the active servers, whatever the backends report: one
-- server for each instance, under the instance's own key, and no two servers at one endpoint.
pub discover_once-AreActive :
    {F : Type 0} (failure : String → String) (result : Discovered F) (generation completed : ℕ)
    (active : Active)
    → AreActive active
    → AreActive (discover_once failure result generation completed active).active
unfolding discover_once
discover_once-AreActive failure (refused error) generation completed active v = v
discover_once-AreActive failure (reported report) generation completed active v =
    publish-AreActive report.instances generation (update_servers report completed active).1
      (update_servers-AreActive report completed active v)

pub empty-AreActive : AreActive []
unfolding lookup
empty-AreActive = record { unique = record {}; keyed = λ k s e. cc; distinct = λ j k s t e f h. cc }
