-- ===== src/Memory/Sampler/Rounds.antt =====
-- The first loop of `sample`, round by round (src/memory.rs): no scope is lost, and every history
-- keeps to its bounds.
use mathlib.Core.Path.{subst}
use opencode_beacon.Prelude.{
  Bool, true, some, [], ◌∷◌, any, ◌||◌, is_some, ◌≡◌, refl, ap, arith, Bool-cases, Option-cases,
  inl, inr,
}
use opencode_beacon.Prelude.Table.{
  Table, lookup, insert, HasUniqueKeys, lookup-insert, insert-HasUniqueKeys,
}
use opencode_beacon.Prelude.Files.{FilePath, IoResult-cases}
use opencode_beacon.Model.{InstanceKey}
use opencode_beacon.Model.Keys.{instance_key}
use opencode_beacon.Memory.{
  CgroupKey, cgroup_key, cgroup_eq, cgroup_eq_iff, InstanceTarget, ResolvedScope, ScopeHistory,
  new_history,
}
use opencode_beacon.Memory.Resolve.{resolve_scope}
use opencode_beacon.Memory.Sampler.{
  is_scope, is_referenced, Moments, Round, renew_scope, known_start, visit, visit_all,
}
use opencode_beacon.Memory.Sampler.History.{IsHistory, new_history-IsHistory}

abbrev pub Scopes : Type 0
Scopes = Table CgroupKey ScopeHistory

abbrev pub Targets : Type 0
Targets = Table InstanceKey InstanceTarget

-- Every history in the table keeps to its bounds.
abbrev pub HasHistories : Scopes → Type 0
HasHistories scopes =
    (k : CgroupKey) (h : ScopeHistory) → lookup cgroup_key k scopes ≡ some h → IsHistory h

-- The table has a history for the key.
abbrev pub has : CgroupKey → Scopes → Bool
has k scopes = is_some (lookup cgroup_key k scopes)

-- The table is well formed, and has every key of another one.
pub record Extends (before after : Scopes) : Type 0 where
  pub unique : HasUniqueKeys cgroup_key before → HasUniqueKeys cgroup_key after
  pub histories : HasHistories before → HasHistories after
  pub grows : (k : CgroupKey) → has k before ≡ true → has k after ≡ true

pub Extends-refl : (scopes : Scopes) → Extends scopes scopes
Extends-refl scopes = record { unique = λ u. u; histories = λ h. h; grows = λ k h. h }

pub Extends-trans : (a b c : Scopes) → Extends a b → Extends b c → Extends a c
Extends-trans a b c x y = record {
  unique = λ u. y.unique (x.unique u);
  histories = λ h. y.histories (x.histories h);
  grows = λ k h. y.grows k (x.grows k h);
}

pub insert-Extends :
    (k : CgroupKey) (h : ScopeHistory) (scopes : Scopes)
    → (HasHistories scopes → IsHistory h)
    → Extends scopes (insert cgroup_key k h scopes)
insert-Extends k h scopes good = record {
  unique = insert-HasUniqueKeys cgroup_key k h scopes;
  histories = λ hs j g e. elim (Bool-cases (cgroup_eq k j)) [
    | inl same ↦
        subst IsHistory (ground (arith, e, lookup-insert cgroup_key k j h scopes)) (good hs)
    | inr other ↦ hs j g (ground (arith, lookup-insert cgroup_key k j h scopes))
  ];
  grows = λ j e. ground (arith, lookup-insert cgroup_key k j h scopes);
}

has-insert :
    (k : CgroupKey) (h : ScopeHistory) (scopes : Scopes)
    → has k (insert cgroup_key k h scopes) ≡ true
has-insert k h scopes = ground (arith, lookup-insert cgroup_key k k h scopes, cgroup_eq_iff k k)

moved-IsHistory :
    (h : ScopeHistory) (path : FilePath) → IsHistory h → IsHistory (record h { path = path })
moved-IsHistory h path i = record { bounded = i.bounded; covered = i.covered; topped = i.topped }

pub renew_scope-Extends :
    (r : ResolvedScope) (scopes : Scopes)
    → Extends scopes (renew_scope r scopes) × (has r.key (renew_scope r scopes) ≡ true)
unfolding renew_scope
renew_scope-Extends r scopes = elim (Option-cases (lookup cgroup_key r.key scopes)) [
  | inl e ↦
      rw (e, renew_scope)
        (
          insert-Extends r.key (new_history r.path) scopes (λ hs. new_history-IsHistory r.path),
          has-insert r.key (new_history r.path) scopes,
        )
  | inr (h, e) ↦
      rw (e, renew_scope)
        (
          insert-Extends r.key (record h { path = r.path }) scopes
              (λ hs. moved-IsHistory h r.path (hs r.key h e)),
          has-insert r.key (record h { path = r.path }) scopes,
        )
]

-- What the target refers to has a history.
abbrev pub IsBacked : InstanceTarget → Scopes → Type 0
IsBacked target scopes = (k : CgroupKey) → is_scope k target ≡ true → has k scopes ≡ true

resolved-IsBacked :
    (target : InstanceTarget) (k : CgroupKey) (scopes : Scopes)
    → has k scopes ≡ true
    → IsBacked (record target { scope = some k }) scopes
resolved-IsBacked target k scopes h j is =
    ground (arith, ap (λ x. has x scopes) ((cgroup_eq_iff j k).0 is))

-- One round of the first loop: what the target refers to has a history, if it had one before.
pub visit-Extends :
    (m : Moments) (proc_root cgroup_root : FilePath) (i : InstanceKey) (target : InstanceTarget)
    (round : Round)
    → Extends round.scopes (visit m proc_root cgroup_root i target round).1.scopes
      × (IsBacked target round.scopes
          → IsBacked
              (visit m proc_root cgroup_root i target round).0
              (visit m proc_root cgroup_root i target round).1.scopes)
unfolding visit
visit-Extends m proc_root cgroup_root i target round =
    elim (Option-cases (known_start m proc_root i target)) [
      | inl e ↦ rw (e, visit) (Extends-refl round.scopes, λ b. b)
      | inr (start, e) ↦
          elim (IoResult-cases (resolve_scope (m.first i) proc_root cgroup_root target.pid start)) [
            | inr (err, f) ↦ rw (e, f, visit) (Extends-refl round.scopes, λ b. b)
            | inl (r, f) ↦
                let (extends, here) = renew_scope-Extends r round.scopes in
                rw (e, f, visit)
                  (extends, λ b. resolved-IsBacked target r.key (renew_scope r round.scopes) here)
          ]
    ]

-- What the targets refer to has a history.
abbrev pub AreBacked : Targets → Scopes → Type 0
AreBacked instances scopes =
    (k : CgroupKey) → is_referenced instances k ≡ true → has k scopes ≡ true

pub referenced_cons :
    (i : InstanceKey) (target : InstanceTarget) (rest : Targets) (k : CgroupKey)
    → is_referenced ((i, target) ∷ rest) k ≡ (is_scope k target || is_referenced rest k)
unfolding is_referenced any
referenced_cons i target rest k = refl

module _ (m : Moments) (proc_root cgroup_root : FilePath) where
  visit_all_cons :
      (i : InstanceKey) (target : InstanceTarget) (rest : Targets) (round : Round)
      → visit_all m proc_root cgroup_root ((i, target) ∷ rest) round ≡ (
          let one = visit m proc_root cgroup_root i target round in
          let more = visit_all m proc_root cgroup_root rest one.1 in ((i, one.0) ∷ more.0, more.1))
  unfolding visit_all
  visit_all_cons i target rest round = refl

  pub visit_all-Extends :
      (instances : Targets) (round : Round)
      → Extends round.scopes (visit_all m proc_root cgroup_root instances round).1.scopes
  unfolding visit_all
  visit_all-Extends [] round = Extends-refl round.scopes
  visit_all-Extends ((i, target) ∷ rest) round =
      let one = visit m proc_root cgroup_root i target round in
      Extends-trans round.scopes one.1.scopes
        (visit_all m proc_root cgroup_root rest one.1).1.scopes
        (visit-Extends m proc_root cgroup_root i target round).0 (visit_all-Extends rest one.1)

  pub visit_all-AreBacked :
      (instances : Targets) (round : Round)
      → AreBacked instances round.scopes
      → AreBacked
          (visit_all m proc_root cgroup_root instances round).0
          (visit_all m proc_root cgroup_root instances round).1.scopes
  unfolding visit_all
  visit_all-AreBacked [] round b = b
  visit_all-AreBacked ((i, target) ∷ rest) round b =
      let one = visit m proc_root cgroup_root i target round in
      let more = visit_all m proc_root cgroup_root rest one.1 in
      let (grown, backed) = visit-Extends m proc_root cgroup_root i target round in
      let head : IsBacked target round.scopes =
        λ k is. b k (ground (arith, is, referenced_cons i target rest k)) in
      let tail : AreBacked rest one.1.scopes =
        λ k is. grown.grows k (b k (ground (arith, is, referenced_cons i target rest k))) in
      λ k is. elim (Bool-cases (is_scope k one.0)) [
        | inl here ↦ (visit_all-Extends rest one.1).grows k (backed head k here)
        | inr there ↦
            visit_all-AreBacked rest one.1 tail k
              (ground (arith, is, there, referenced_cons i one.0 more.0 k))
      ]

  visit_all-lookup :
      (instances : Targets) (round : Round) (i : InstanceKey)
      → is_some (lookup instance_key i (visit_all m proc_root cgroup_root instances round).0)
        ≡ is_some (lookup instance_key i instances)
  unfolding visit_all lookup
  visit_all-lookup [] round i = refl
  visit_all-lookup ((j, target) ∷ rest) round i =
      ground (arith, visit_all-lookup rest (visit m proc_root cgroup_root j target round).1 i)

  pub visit_all-HasUniqueKeys :
      (instances : Targets) (round : Round)
      → HasUniqueKeys instance_key instances
      → HasUniqueKeys instance_key (visit_all m proc_root cgroup_root instances round).0
  unfolding visit_all
  visit_all-HasUniqueKeys [] round u = u
  visit_all-HasUniqueKeys ((i, target) ∷ rest) round u =
      let one = visit m proc_root cgroup_root i target round in
      (ground (arith, visit_all-lookup rest one.1 i, u.0), visit_all-HasUniqueKeys rest one.1 u.1)
