-- ===== src/Memory/Sampler/Readings.antt =====
-- The second loop of `sample` (src/memory.rs): the histories keep to their bounds.
use mathlib.Core.Path.{subst}
use mathlib.Core.Option
use opencode_beacon.Prelude.{
  ℕ, List, [], ◌∷◌, any, if◌then◌else◌, ◌≡◌, refl, ap, arith, Bool-cases, Option-cases, inl, inr,
}
use opencode_beacon.Prelude.Table.{Table, lookup, HasUniqueKeys}
use opencode_beacon.Prelude.Files.{FilePath, IoResult-cases}
use opencode_beacon.Memory.{CgroupKey, cgroup_key, cgroup_eq, cgroup_eq_iff, ScopeHistory}
use opencode_beacon.Memory.Resolve.{read_memory_values}
use opencode_beacon.Memory.Sampler.{
  Moments, Round, is_validated, sample_scope, sample_scopes, unwrap_or,
}
use opencode_beacon.Memory.Sampler.History.{IsHistory, prune-IsHistory, add_sample-IsHistory}
use opencode_beacon.Memory.Sampler.Rounds.{Scopes, HasHistories, has}

module _ (m : Moments) (proc_root cgroup_root : FilePath) where
  -- One round of the second loop.
  sample_scope-IsHistory :
      (now : ℕ) (validators : Table CgroupKey (List (ℕ × ℕ))) (k : CgroupKey) (h : ScopeHistory)
      → IsHistory h
      → IsHistory (sample_scope m proc_root cgroup_root now validators k h)
  unfolding sample_scope
  sample_scope-IsHistory now validators k h i =
      let targets = unwrap_or (lookup cgroup_key k validators) [] in
      elim (Bool-cases (is_validated (m.again k) proc_root cgroup_root k h.path 0 targets)) [
        | inr invalid ↦ rw (invalid, sample_scope) (prune-IsHistory now h i)
        | inl valid ↦ elim (IoResult-cases (read_memory_values (m.reading k) h.path)) [
          | inr (e, f) ↦ rw (valid, f, sample_scope) (prune-IsHistory now h i)
          | inl (v, f) ↦
              rw (valid, f, sample_scope) (add_sample-IsHistory now v _ (prune-IsHistory now h i))
        ]
      ]

  -- What the second loop does to the history of a key.
  abbrev pub sampled : ℕ → Round → CgroupKey → ScopeHistory → ScopeHistory
  sampled now round k h =
      if any (λ e. cgroup_eq e.1 k) round.resolved
      then sample_scope m proc_root cgroup_root now round.validators k h
      else h

  sample_scopes_cons :
      (now : ℕ) (round : Round) (j : CgroupKey) (h : ScopeHistory) (rest : Scopes)
      → sample_scopes m proc_root cgroup_root now round ((j, h) ∷ rest)
        ≡ (j, sampled now round j h) ∷ sample_scopes m proc_root cgroup_root now round rest
  unfolding sample_scopes
  sample_scopes_cons now round j h rest = refl

  pub lookup-sample_scopes :
      (now : ℕ) (round : Round) (scopes : Scopes) (k : CgroupKey)
      → lookup cgroup_key k (sample_scopes m proc_root cgroup_root now round scopes)
        ≡ Option.map (sampled now round k) (lookup cgroup_key k scopes)
  unfolding lookup sample_scopes
  lookup-sample_scopes now round [] k = refl
  lookup-sample_scopes now round ((j, h) ∷ rest) k = elim (Bool-cases (cgroup_eq j k)) [
    | inl same ↦ ground (arith, same, ap (λ x. sampled now round x h) ((cgroup_eq_iff j k).0 same))
    | inr other ↦ ground (arith, other, lookup-sample_scopes now round rest k)
  ]

  sampled-IsHistory :
      (now : ℕ) (round : Round) (k : CgroupKey) (h : ScopeHistory)
      → IsHistory h
      → IsHistory (sampled now round k h)
  sampled-IsHistory now round k h i =
      elim (Bool-cases (any (λ e. cgroup_eq e.1 k) round.resolved)) [
        | inl known ↦ rw known (sample_scope-IsHistory now round.validators k h i)
        | inr missed ↦ rw missed i
      ]

  pub has-sample_scopes :
      (now : ℕ) (round : Round) (scopes : Scopes) (k : CgroupKey)
      → has k (sample_scopes m proc_root cgroup_root now round scopes) ≡ has k scopes
  has-sample_scopes now round scopes k = elim (Option-cases (lookup cgroup_key k scopes)) [
    | inl e ↦ ground (arith, e, lookup-sample_scopes now round scopes k)
    | inr (h, e) ↦ ground (arith, e, lookup-sample_scopes now round scopes k)
  ]

  pub sample_scopes-HasHistories :
      (now : ℕ) (round : Round) (scopes : Scopes)
      → HasHistories scopes
      → HasHistories (sample_scopes m proc_root cgroup_root now round scopes)
  sample_scopes-HasHistories now round scopes good k g e =
      elim (Option-cases (lookup cgroup_key k scopes)) [
        | inl f ↦ absurd (ground (arith, e, f, lookup-sample_scopes now round scopes k))
        | inr (h, f) ↦
            subst IsHistory (ground (arith, e, f, lookup-sample_scopes now round scopes k))
              (sampled-IsHistory now round k h (good k h f))
      ]

  pub sample_scopes-HasUniqueKeys :
      (now : ℕ) (round : Round) (scopes : Scopes)
      → HasUniqueKeys cgroup_key scopes
      → HasUniqueKeys cgroup_key (sample_scopes m proc_root cgroup_root now round scopes)
  unfolding sample_scopes
  sample_scopes-HasUniqueKeys now round [] u = u
  sample_scopes-HasUniqueKeys now round ((k, h) ∷ rest) u = (
    ground (arith, u.0, lookup-sample_scopes now round rest k),
    sample_scopes-HasUniqueKeys now round rest u.1,
  )
