-- ===== src/Monitor/Merge/Endpoints.antt =====
-- What becomes of the instances of two reports that are merged (src/monitor.rs).
use opencode_beacon.Prelude.{
  ◌≤◌, Bool, true, List, [], ◌∷◌, ◌++◌, ◌||◌, ◌&&◌, not, filter, any, any-append, count,
  count-append, ◌≡◌, refl, sym, ◌∙◌, arith, Bool-cases, inl, inr,
}
use opencode_beacon.Prelude.Order.{IsOrder, order_by-IsOrder, order_list-IsOrder, compare-IsOrder}
use opencode_beacon.Prelude.Sort.{sort_by, IsSorted, sort_by-IsSorted, any-sort_by, count-sort_by}
use opencode_beacon.Model.{InstanceKey, ServerInstance}
use opencode_beacon.Model.Keys.{instance_eq_iff}
use opencode_beacon.Monitor.Pass.{DiscoveryReport, reported}
use opencode_beacon.Monitor.Merge.{
  socket_codes, by_address, is_managed_endpoint, shadowed, is_key_of, merge_reports,
  merge_backend_reports,
}

by_address-IsOrder : IsOrder by_address
by_address-IsOrder =
    order_by-IsOrder (λ (i : ServerInstance). socket_codes i.endpoint.socket)
      (order_list-IsOrder compare-IsOrder)

-- A shadowed key stays one with more instances.
shadowed_more :
    (m xs : List ServerInstance) (x : ServerInstance) (k : InstanceKey)
    → is_key_of (shadowed m xs) k ≡ true
    → is_key_of (shadowed m (x ∷ xs)) k ≡ true
unfolding is_key_of shadowed filter any
shadowed_more m xs x k h = ground (arith, h)

shadows_itself :
    (m xs : List ServerInstance) (x : ServerInstance)
    → is_managed_endpoint m x ≡ true
    → is_key_of (shadowed m (x ∷ xs)) x.key ≡ true
unfolding is_key_of shadowed filter any
shadows_itself m xs x h = ground (arith, h, (instance_eq_iff x.key x.key).1 refl)

-- Instances whose keys are hidden when they have a managed endpoint.
AreHidden : List ServerInstance → List InstanceKey → List ServerInstance → Type 0
AreHidden m keys [] = Unit
AreHidden m keys (x ∷ xs) =
    (is_managed_endpoint m x ≡ true → is_key_of keys x.key ≡ true) × AreHidden m keys xs

more-AreHidden :
    (m all xs : List ServerInstance) (x : ServerInstance)
    → AreHidden m (shadowed m all) xs
    → AreHidden m (shadowed m (x ∷ all)) xs
unfolding AreHidden
more-AreHidden m all [] x h = tt
more-AreHidden m all (y ∷ xs) x h =
    (λ e. shadowed_more m all x y.key (h.0 e), more-AreHidden m all xs x h.1)

shadowed-AreHidden : (m xs : List ServerInstance) → AreHidden m (shadowed m xs) xs
unfolding AreHidden
shadowed-AreHidden m [] = tt
shadowed-AreHidden m (x ∷ xs) =
    (λ e. shadows_itself m xs x e, more-AreHidden m xs xs x (shadowed-AreHidden m xs))

-- What is left when hidden keys are dropped has no managed endpoint.
kept_free :
    (m xs : List ServerInstance) (keys : List InstanceKey) (p : ServerInstance → Bool)
    → AreHidden m keys xs
    → any p (filter (λ i. not (is_key_of keys i.key)) xs) ≡ true
    → any (λ i. p i && not (is_managed_endpoint m i)) xs ≡ true
unfolding any filter AreHidden
kept_free m [] keys p h e = ground (arith, e)
kept_free m (x ∷ xs) keys p h e = elim (Bool-cases (is_managed_endpoint m x)) [
  | inl at ↦
      let hidden = h.0 at in
      let rest : any p (filter (λ i. not (is_key_of keys i.key)) xs) ≡ true =
        ground (arith, e, hidden) in
      ground (arith, kept_free m xs keys p h.1 rest)
  | inr off ↦ elim (Bool-cases (p x)) [
    | inl yes_ ↦ ground (arith, off, yes_)
    | inr no_ ↦
        let rest : any p (filter (λ i. not (is_key_of keys i.key)) xs) ≡ true =
          ground (arith, e, no_) in
        ground (arith, kept_free m xs keys p h.1 rest)
  ]
]

-- The merged instances, sorted: those of the managed report, and others of the procfs report, none
-- of which has an endpoint of the managed report.
pub record IsMerge (v1 v2 instances : List ServerInstance) : Type 0 where
  pub ordered : IsSorted by_address instances
  pub managed_kept : (p : ServerInstance → Bool) → count p v2 ≤ count p instances
  pub others_free :
      (p : ServerInstance → Bool)
      → any p instances ≡ true
      → (any p v2 || any (λ i. p i && not (is_managed_endpoint v2 i)) v1) ≡ true

module _ {F : Type 0} (merged : F → F → F) where
  -- Two reports merge to one whose instances are sorted by address: each instance of the managed
  -- report is among them, at least as often as it was there, and every other one is an instance of
  -- the procfs report at an endpoint that no managed instance has.
  pub merge_backend_reports-IsMerge :
      (v1 v2 : DiscoveryReport F)
      → (r : DiscoveryReport F) × (merge_backend_reports merged (reported v1) (reported v2)
          ≡ reported r)
        × IsMerge v1.instances v2.instances r.instances
  unfolding merge_backend_reports merge_reports
  merge_backend_reports-IsMerge v1 v2 =
      let hidden = shadowed v2.instances v1.instances in
      let kept = filter (λ i. not (is_key_of hidden i.key)) v1.instances in
      let both = kept ++ v2.instances in
      (
        record (merge_reports merged v1 v2) { instances = sort_by by_address both },
        refl,
        record {
          ordered = sort_by-IsSorted by_address by_address-IsOrder both;
          managed_kept =
              λ p. omega (arith, count-sort_by by_address p both, count-append p kept v2.instances);
          others_free = λ p h.
              let found =
                sym (any-sort_by by_address p both ∙ any-append p kept v2.instances) ∙ h in
              elim (Bool-cases (any p kept)) [
                | inl k ↦
                    let free =
                      kept_free v2.instances v1.instances hidden p
                        (shadowed-AreHidden v2.instances v1.instances) k in
                    ground (arith, free)
                | inr k ↦ ground (arith, found, k)
              ];
        },
      )
