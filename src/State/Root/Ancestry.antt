-- ===== src/State/Root/Ancestry.antt =====
-- `resolve_root` against the chain of parents that it walks: it ends, and it finds the root of a
-- session exactly when the chain of known sessions from it reaches one.
use opencode_beacon.Prelude.{
  ℕ, zero, suc, ◌<◌, ◌≡◌, ◌↔◌, refl, sym, ap, ◌∙◌, String, Bool, true, false, Option, none, some,
  List, [], length, arith, ◌==◌, ==→≡, Bool-cases, Option-cases, inl, inr,
}
use mathlib.Core.Path.{subst}
use opencode_beacon.Prelude.Maps.{Map, contains, set_insert, contains-set_insert}
use opencode_beacon.State.Record.{SessionRecord}
use opencode_beacon.State.Root.{resolve_loop, resolve_root}
use opencode_beacon.State.Root.Walk.{
  parent_of, fresh, fresh-set_insert-lt, fresh-nil, is_some-lookup, revisit, missing, at_root,
  orphan, climb, round, walk_revisit, walk_missing, walk_root, walk_orphan, walk_climb,
  walk_exhausted, resolve_loop_total,
}

-- `root` is reached from `id` by `n` steps to the parent, all of them through known sessions.
abbrev pub Ancestry : Map SessionRecord → ℕ → String → String → Type 0
Ancestry m zero id root = (parent_of m id ≡ some none) × (id ≡ root)
Ancestry m (suc n) id root =
    (parent : String) × (parent_of m id ≡ some (some parent)) × Ancestry m n parent root

module _ (m : Map SessionRecord) (subject : String) where
  -- An answer that says it is resolved names the root of the chain.
  resolve_loop_sound :
      (fuel : ℕ) (id : String) (visited : List String) (root : String)
      → resolve_loop fuel m subject id visited ≡ some (root, true)
      → (n : ℕ) × Ancestry m n id root
  resolve_loop_sound zero id visited root h = cc (walk_exhausted m subject id visited)
  resolve_loop_sound (suc fuel) id visited root h = elim (round m visited id) [
    | revisit old ↦ cc (walk_revisit m subject fuel id visited old)
    | missing new e ↦ cc (walk_missing m subject fuel id visited new e)
    | at_root new e ↦ (0, (e, ground (arith, walk_root m subject fuel id visited new e)))
    | orphan p new e e' ↦ cc (walk_orphan m subject fuel id visited p new e e')
    | climb p above new e e' ↦
        let (n, chain) =
          resolve_loop_sound fuel p (set_insert id visited) root
            (sym (walk_climb m subject fuel id visited p above new e e') ∙ h) in
        (suc n, (p, e, chain))
  ]

-- The length of a chain is determined by where it starts.
Ancestry-length :
    (m : Map SessionRecord) (n n' : ℕ) (id root root' : String)
    → Ancestry m n id root
    → Ancestry m n' id root'
    → n ≡ n'
Ancestry-length m zero zero id root root' c c' = refl
Ancestry-length m zero (suc n') id root root' c (p', e', c') = absurd (ground arith)
Ancestry-length m (suc n) zero id root root' (p, e, c) c' = absurd (ground arith)
Ancestry-length m (suc n) (suc n') id root root' (p, e, c) (p', e', c') =
    ap suc
      (Ancestry-length m n n' p root root' c (subst (λ x. Ancestry m n' x root') (ground arith) c'))

-- Every visited session is further from the root than the current one.
abbrev Behind : Map SessionRecord → ℕ → String → List String → Type 0
Behind m n root visited =
    (v : String) → contains visited v ≡ true → (k : ℕ) × (n < k) × Ancestry m k v root

Behind-set_insert :
    (m : Map SessionRecord) (n : ℕ) (id root : String) (visited : List String)
    → Ancestry m (suc n) id root
    → Behind m (suc n) root visited
    → Behind m n root (set_insert id visited)
Behind-set_insert m n id root visited chain behind v h = elim (Bool-cases (id == v)) [
  | inl same ↦ (suc n, omega arith, subst (λ x. Ancestry m (suc n) x root) (==→≡ id v same) chain)
  | inr other ↦
      let (k, far, c) = behind v (ground (arith, contains-set_insert id v visited)) in
      (k, omega arith, c)
]

not_visited :
    (m : Map SessionRecord) (n : ℕ) (id root : String) (visited : List String)
    → Ancestry m n id root
    → Behind m n root visited
    → contains visited id ≡ false
not_visited m n id root visited chain behind = elim (Bool-cases (contains visited id)) [
  | inl old ↦
      let (k, far, c) = behind id old in
      absurd (omega (arith, Ancestry-length m n k id root root chain c))
  | inr new ↦ new
]

Ancestry-known :
    (m : Map SessionRecord) (n : ℕ) (id root : String)
    → Ancestry m n id root
    → (above : Option String) × (parent_of m id ≡ some above)
Ancestry-known m zero id root (e, same) = (none, e)
Ancestry-known m (suc n) id root (p, e, c) = (some p, e)

module _ (m : Map SessionRecord) (subject root : String) where
  resolve_loop_complete :
      (fuel n : ℕ) (id : String) (visited : List String)
      → fresh m visited < fuel
      → Ancestry m n id root
      → Behind m n root visited
      → resolve_loop fuel m subject id visited ≡ some (root, true)
  resolve_loop_complete zero n id visited h c behind = absurd (omega arith)
  resolve_loop_complete (suc fuel) zero id visited h (e, same) behind =
      let new = not_visited m 0 id root visited (e, same) behind in
      ground (arith, walk_root m subject fuel id visited new e)
  resolve_loop_complete (suc fuel) (suc n) id visited h (p, e, c) behind =
      let new = not_visited m (suc n) id root visited (p, e, c) behind in
      let (above, e') = Ancestry-known m n p root c in
      rw (walk_climb m subject fuel id visited p above new e e') (
        resolve_loop_complete fuel n p (set_insert id visited)
          (omega (arith, fresh-set_insert-lt m id visited (is_some-lookup m id e) new)) c
          (Behind-set_insert m n id root visited (p, e, c) behind))

none_visited : (m : Map SessionRecord) (n : ℕ) (root : String) → Behind m n root []
unfolding contains
none_visited m n root v h = cc

abbrev rounds : Map SessionRecord → String → Option (String × Bool)
rounds m subject = resolve_loop (suc (length m)) m subject subject []

resolve_root_of_some :
    (m : Map SessionRecord) (subject : String) (answer : String × Bool)
    → rounds m subject ≡ some answer
    → resolve_root m subject ≡ answer
unfolding resolve_root
resolve_root_of_some m subject answer h = rw h

-- The walk of `resolve_root` ends: with one round more than there are sessions, the loop always
-- returns, and what it returns is the result of `resolve_root`.
pub resolve_root_total :
    (m : Map SessionRecord) (subject : String)
    → resolve_loop (suc (length m)) m subject subject [] ≡ some (resolve_root m subject)
resolve_root_total m subject = elim (Option-cases (rounds m subject)) [
  | inl e ↦ absurd (
      ground (
        arith,
        e,
        fresh-nil m,
        resolve_loop_total m subject (suc (length m)) subject [] (omega (arith, fresh-nil m)),
      ))
  | inr (answer, e) ↦ rw (resolve_root_of_some m subject answer e) e
]

-- `resolve_root` answers that the root is resolved exactly when the chain of parents from the
-- subject, through sessions with known metadata, reaches a session without a parent, and then
-- names that session. Cycles and sessions that are not known are on no such chain.
pub resolve_root_iff :
    (m : Map SessionRecord) (subject root : String)
    → (resolve_root m subject ≡ (root, true)) ↔ ((n : ℕ) × Ancestry m n subject root)
resolve_root_iff m subject root = (
  λ h.
      resolve_loop_sound m subject (suc (length m)) subject [] root
        (resolve_root_total m subject ∙ ap some h),
  λ chain.
      resolve_root_of_some m subject (root, true)
        (resolve_loop_complete m subject root (suc (length m)) chain.0 subject []
          (omega (arith, fresh-nil m)) chain.1 (none_visited m chain.0 root)),
)

module _ (m : Map SessionRecord) (subject : String) where
  loop_unresolved :
      (fuel : ℕ) (id : String) (visited : List String) (answer : String)
      → resolve_loop fuel m subject id visited ≡ some (answer, false)
      → answer ≡ subject
  loop_unresolved zero id visited answer h = cc (walk_exhausted m subject id visited)
  loop_unresolved (suc fuel) id visited answer h = elim (round m visited id) [
    | revisit old ↦ ground (arith, walk_revisit m subject fuel id visited old)
    | missing new e ↦ ground (arith, walk_missing m subject fuel id visited new e)
    | at_root new e ↦ absurd (ground (arith, walk_root m subject fuel id visited new e))
    | orphan p new e e' ↦ ground (arith, walk_orphan m subject fuel id visited p new e e')
    | climb p above new e e' ↦
        loop_unresolved fuel p (set_insert id visited) answer
          (sym (walk_climb m subject fuel id visited p above new e e') ∙ h)
  ]

-- Where no root is resolved, the subject stands for its own root.
pub resolve_root_unresolved :
    (m : Map SessionRecord) (subject answer : String)
    → resolve_root m subject ≡ (answer, false)
    → answer ≡ subject
resolve_root_unresolved m subject answer h =
    loop_unresolved m subject (suc (length m)) subject [] answer
      (resolve_root_total m subject ∙ ap some h)
