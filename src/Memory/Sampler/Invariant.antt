-- ===== src/Memory/Sampler/Invariant.antt =====
-- The invariant of `CgroupMemorySampler`, and that every operation keeps it (src/memory.rs).
use opencode_beacon.Prelude.{
  ℕ, true, Option, none, some, [], ◌∷◌, any, ◌||◌, filter_option, ◌≡◌, refl, ap, arith, Bool-cases,
  Option-cases, inl, inr, ◌∙◌,
}
use opencode_beacon.Prelude.Table.{
  lookup, insert, remove, HasUniqueKeys, lookup-insert, lookup-retain, insert-HasUniqueKeys,
  remove-HasUniqueKeys, retain-HasUniqueKeys,
}
use opencode_beacon.Prelude.Files.{Files}
use opencode_beacon.Model.{InstanceKey}
use opencode_beacon.Model.Keys.{instance_key}
use opencode_beacon.Events.{BeaconEvent, server_found, server_removed}
use opencode_beacon.Memory.{
  CgroupKey, cgroup_key, cgroup_eq, cgroup_eq_iff, InstanceTarget, ResolvedScope, new_history,
}
use opencode_beacon.Memory.Sampler.{
  CgroupMemorySampler, is_scope, is_referenced, purge_unreferenced_scopes, admit_scope, scope_key,
  register, remove_instance, is_procfs, observe_memory, Moments, Round, visit_all, sample,
  registered_target, registered_scope,
}
use opencode_beacon.Memory.Sampler.History.{new_history-IsHistory}
use opencode_beacon.Memory.Sampler.Rounds.{
  Scopes, Targets, HasHistories, has, AreBacked, Extends, insert-Extends, Extends-refl,
  visit_all-Extends, visit_all-AreBacked, visit_all-HasUniqueKeys,
}
use opencode_beacon.Memory.Sampler.Readings.{
  has-sample_scopes, sample_scopes-HasHistories, sample_scopes-HasUniqueKeys,
}

-- One target for each instance, one history for each scope that an instance refers to and for no
-- other, and every history within its bounds.
pub record IsSampler (s : CgroupMemorySampler) : Type 0 where
  pub instances_unique : HasUniqueKeys instance_key s.instances
  pub scopes_unique : HasUniqueKeys cgroup_key s.scopes
  pub exact : (k : CgroupKey) → has k s.scopes ≡ is_referenced s.instances k
  pub histories : HasHistories s.scopes

purged-lookup :
    (s : CgroupMemorySampler) (k : CgroupKey)
    → HasUniqueKeys cgroup_key s.scopes
    → lookup cgroup_key k (purge_unreferenced_scopes s).scopes
      ≡ filter_option (λ h. is_referenced s.instances k) (lookup cgroup_key k s.scopes)
unfolding purge_unreferenced_scopes
purged-lookup s k u = lookup-retain cgroup_key (λ j h. is_referenced s.instances j) k s.scopes u

purge-HasHistories :
    (s : CgroupMemorySampler)
    → HasUniqueKeys cgroup_key s.scopes
    → HasHistories s.scopes
    → HasHistories (purge_unreferenced_scopes s).scopes
purge-HasHistories s u good k h e = elim (Option-cases (lookup cgroup_key k s.scopes)) [
  | inl f ↦ absurd (ground (arith, e, f, purged-lookup s k u))
  | inr (g, f) ↦ good k h (ground (arith, e, f, purged-lookup s k u))
]

purge-scopes_unique :
    (s : CgroupMemorySampler)
    → HasUniqueKeys cgroup_key s.scopes
    → HasUniqueKeys cgroup_key (purge_unreferenced_scopes s).scopes
unfolding purge_unreferenced_scopes
purge-scopes_unique s u =
    retain-HasUniqueKeys cgroup_key (λ j h. is_referenced s.instances j) s.scopes u

purge-instances : (s : CgroupMemorySampler) → (purge_unreferenced_scopes s).instances ≡ s.instances
unfolding purge_unreferenced_scopes
purge-instances s = refl

purge-has :
    (s : CgroupMemorySampler) (k : CgroupKey)
    → HasUniqueKeys cgroup_key s.scopes
    → AreBacked s.instances s.scopes
    → has k (purge_unreferenced_scopes s).scopes ≡ is_referenced s.instances k
purge-has s k u b = elim (Option-cases (lookup cgroup_key k s.scopes)) [
  | inl f ↦ ground (arith, f, b k, purged-lookup s k u)
  | inr (g, f) ↦ ground (arith, f, b k, purged-lookup s k u)
]

-- The purge restores the invariant where every scope that is referred to has a history.
purge-IsSampler :
    (s : CgroupMemorySampler)
    → HasUniqueKeys instance_key s.instances
    → HasUniqueKeys cgroup_key s.scopes
    → AreBacked s.instances s.scopes
    → HasHistories s.scopes
    → IsSampler (purge_unreferenced_scopes s)
unfolding purge_unreferenced_scopes
purge-IsSampler s iu su b h = record {
  instances_unique = iu;
  scopes_unique = purge-scopes_unique s su;
  exact = λ k. purge-has s k su b;
  histories = purge-HasHistories s su h;
}

referenced_remove :
    (i : InstanceKey) (instances : Targets) (k : CgroupKey)
    → is_referenced (remove instance_key i instances) k ≡ true
    → is_referenced instances k ≡ true
unfolding is_referenced remove any
referenced_remove i [] k h = h
referenced_remove i ((j, target) ∷ rest) k h = ground (arith, referenced_remove i rest k)

admit_scope-Extends :
    (r : Option ResolvedScope) (scopes : Scopes) → Extends scopes (admit_scope r scopes)
unfolding admit_scope
admit_scope-Extends none scopes = Extends-refl scopes
admit_scope-Extends (some r) scopes = elim (Option-cases (lookup cgroup_key r.key scopes)) [
  | inl e ↦
      rw (e, admit_scope)
        (insert-Extends r.key (new_history r.path) scopes (λ hs. new_history-IsHistory r.path))
  | inr (h, e) ↦ rw (e, admit_scope) (Extends-refl scopes)
]

admit_scope-has :
    (r : ResolvedScope) (scopes : Scopes) → has r.key (admit_scope (some r) scopes) ≡ true
unfolding admit_scope
admit_scope-has r scopes = ground (
  arith,
  cgroup_eq_iff r.key r.key,
  lookup-insert cgroup_key r.key r.key (new_history r.path) scopes,
)

admitted-has :
    (r : Option ResolvedScope) (target : InstanceTarget) (scopes : Scopes) (k : CgroupKey)
    → target.scope ≡ scope_key r
    → is_scope k target ≡ true
    → has k (admit_scope r scopes) ≡ true
admitted-has none target scopes k e is = absurd (ground (arith, e, is))
admitted-has (some r) target scopes k e is =
    let here : cgroup_eq k r.key ≡ true = ground (arith, e, is) in
    ground (
      arith,
      ap (λ x. has x (admit_scope (some r) scopes)) ((cgroup_eq_iff k r.key).0 here),
      admit_scope-has r scopes,
    )

inserted-referenced :
    (i : InstanceKey) (target : InstanceTarget) (instances : Targets) (k : CgroupKey)
    → is_referenced (insert instance_key i target instances) k
      ≡ (is_scope k target || is_referenced (remove instance_key i instances) k)
unfolding insert is_referenced any
inserted-referenced i target instances k = refl

insert-AreBacked :
    (i : InstanceKey) (target : InstanceTarget) (r : Option ResolvedScope) (instances : Targets)
    (scopes : Scopes)
    → target.scope ≡ scope_key r
    → AreBacked instances scopes
    → AreBacked (insert instance_key i target instances) (admit_scope r scopes)
insert-AreBacked i target r instances scopes e b k is = elim (Bool-cases (is_scope k target)) [
  | inl here ↦ admitted-has r target scopes k e here
  | inr there ↦ (admit_scope-Extends r scopes).grows k (
      b k (
        referenced_remove i instances k
          (ground (arith, is, there, inserted-referenced i target instances k))))
]

registered_target-scope :
    (files : ℕ → Files) (i : InstanceKey) (s : CgroupMemorySampler)
    → (registered_target files i s).scope ≡ scope_key (registered_scope files i s)
unfolding registered_target
registered_target-scope files i s = refl

-- An instance is registered: the invariant stays, whatever the files say.
pub register-IsSampler :
    (files : ℕ → Files) (i : InstanceKey) (s : CgroupMemorySampler)
    → IsSampler s
    → IsSampler (register files i s)
unfolding register
register-IsSampler files i s v =
    let r = registered_scope files i s in
    let target = registered_target files i s in
    let s' = record s {
      scopes = admit_scope r s.scopes;
      instances = insert instance_key i target s.instances;
    } in
    purge-IsSampler s' (insert-HasUniqueKeys instance_key i target s.instances v.instances_unique)
      ((admit_scope-Extends r s.scopes).unique v.scopes_unique)
      (insert-AreBacked i target r s.instances s.scopes (registered_target-scope files i s)
        (λ k is. ground (arith, v.exact k, is)))
      ((admit_scope-Extends r s.scopes).histories v.histories)

pub remove_instance-IsSampler :
    (i : InstanceKey) (s : CgroupMemorySampler) → IsSampler s → IsSampler (remove_instance i s)
unfolding remove_instance
remove_instance-IsSampler i s v =
    purge-IsSampler _ (remove-HasUniqueKeys instance_key i s.instances v.instances_unique)
      v.scopes_unique (λ k is. ground (arith, v.exact k, referenced_remove i s.instances k is))
      v.histories

-- A server event keeps the invariant of the memory sampler, whatever the files say: one target for
-- each instance, one history for each scope that an instance refers to and for no other, at most
-- 721 samples in each history, and no sample and no last value above the peak that was observed.
pub observe_memory-IsSampler :
    (files : ℕ → Files) (event : BeaconEvent) (s : CgroupMemorySampler)
    → IsSampler s
    → IsSampler (observe_memory files event s)
unfolding observe_memory
observe_memory-IsSampler files (server_found i) s v = elim (Bool-cases (is_procfs i.key.source)) [
  | inl local ↦ rw (local, observe_memory) (register-IsSampler files i.key s v)
  | inr other ↦ rw (other, observe_memory) v
]
observe_memory-IsSampler files (server_removed i) s v = remove_instance-IsSampler i.key s v
observe_memory-IsSampler files _ s v = v

-- Sampling, too, keeps that invariant, whatever the files say from one call to the next.
pub sample-IsSampler :
    (m : Moments) (now : ℕ) (s : CgroupMemorySampler) → IsSampler s → IsSampler (sample m now s).1
unfolding sample
sample-IsSampler m now s v =
    let start : Round = record { scopes = s.scopes; resolved = []; validators = [] } in
    let visited = visit_all m s.proc_root s.cgroup_root s.instances start in
    let extends = visit_all-Extends m s.proc_root s.cgroup_root s.instances start in
    let purged =
      purge-IsSampler (record s { instances = visited.0; scopes = visited.1.scopes })
        (visit_all-HasUniqueKeys m s.proc_root s.cgroup_root s.instances start v.instances_unique)
        (extends.unique v.scopes_unique)
        (visit_all-AreBacked m s.proc_root s.cgroup_root s.instances start
          (λ k is. ground (arith, v.exact k, is)))
        (extends.histories v.histories) in
    let scopes =
      (purge_unreferenced_scopes
        (record s { instances = visited.0; scopes = visited.1.scopes })).scopes in
    record {
      instances_unique = purged.instances_unique;
      scopes_unique =
          sample_scopes-HasUniqueKeys m s.proc_root s.cgroup_root now visited.1 scopes
            purged.scopes_unique;
      exact = λ k.
          has-sample_scopes m s.proc_root s.cgroup_root now visited.1 scopes k ∙ purged.exact k;
      histories =
          sample_scopes-HasHistories m s.proc_root s.cgroup_root now visited.1 scopes
            purged.histories;
    }
