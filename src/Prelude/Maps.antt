-- ===== src/Prelude/Maps.antt =====
-- `HashMap<String, V>` as an association list and `HashSet<String>` as a list of its members.
-- The order of the entries stands for the hash map's unspecified order of iteration.
use opencode_beacon.Prelude.Lists.{filter, any}
use Prim.Native.String.{String}
use mathlib.Core.Path.{◌≡◌, refl, ap}
use mathlib.Core.Logic.{inl, inr}
use mathlib.Core.Bool.{Bool, false, not, ◌&&◌, ◌||◌}
use mathlib.Core.Option
use mathlib.Core.Option.{Option, none, some}
use mathlib.Core.List.{List, [], ◌∷◌, map}
use native.Mathlib.Omega.{arith}
use text.Mathlib.Text.{◌==◌}
use text.Mathlib.TextEquality.{eq_iff}
use opencode_beacon.Prelude.Tests.{if◌then◌else◌, unwrap_or, Option-cases, Bool-cases}

abbrev pub Map {ℓ} : Type ℓ → Type ℓ
Map V = List (String × V)

module _ {ℓ} {V : Type ℓ} where
  -- `map.get(k)`
  unfoldable pub lookup : String → Map V → Option V
  lookup k [] = none
  lookup k ((j, v) ∷ m) = if j == k then some v else lookup k m

  -- `map.remove(k)`
  unfoldable pub remove : String → Map V → Map V
  remove k [] = []
  remove k ((j, v) ∷ m) = let rest = remove k m in if j == k then rest else (j, v) ∷ rest

  -- `map.insert(k, v)`
  unfoldable pub insert : String → V → Map V → Map V
  unfolding remove
  insert k v m = (k, v) ∷ remove k m

  -- `if let Some(v) = map.get_mut(k) { *v = f(v) }`
  unfoldable pub modify : String → (V → V) → Map V → Map V
  unfolding lookup insert
  modify k f m = elim (lookup k m) [ none ↦ m | some v ↦ insert k (f v) m ]

  -- `f` on `map.entry(k).or_insert(d)`
  unfoldable pub modify_entry : String → V → (V → V) → Map V → Map V
  unfolding lookup insert
  modify_entry k d f m = insert k (f (unwrap_or (lookup k m) d)) m

  -- `retain`
  unfoldable pub retain : (String → V → Bool) → Map V → Map V
  retain p [] = []
  retain p ((j, v) ∷ m) = let rest = retain p m in if p j v then (j, v) ∷ rest else rest

  abbrev pub keys : Map V → List String
  keys = map (λ e. e.0)

  -- No key has two entries.
  abbrev pub HasUniqueKeys : Map V → Type ℓ
  HasUniqueKeys [] = Unit
  HasUniqueKeys ((k, v) ∷ m) = (lookup k m ≡ none) × HasUniqueKeys m

  pub lookup-remove :
      (k j : String) (m : Map V) → lookup j (remove k m) ≡ (if k == j then none else lookup j m)
  unfolding lookup remove
  lookup-remove k j [] = ground arith
  lookup-remove k j ((i, v) ∷ m) =
      ground (arith, lookup-remove k j m, eq_iff i k, eq_iff i j, eq_iff k j)

  pub lookup-insert :
      (k j : String) (v : V) (m : Map V)
      → lookup j (insert k v m) ≡ (if k == j then some v else lookup j m)
  unfolding lookup insert
  lookup-insert k j v m = ground (arith, lookup-remove k j m)

  pub lookup-modify :
      (k j : String) (f : V → V) (m : Map V)
      → lookup j (modify k f m) ≡ (if k == j then Option.map f (lookup j m) else lookup j m)
  unfolding modify
  lookup-modify k j f m = elim (Option-cases (lookup k m)) [
    | inl e ↦ rw (e, modify) (ground (arith, eq_iff k j))
    | inr (v, e) ↦ rw (e, modify) (ground (arith, lookup-insert k j (f v) m, eq_iff k j))
  ]

  pub lookup-modify_entry :
      (k j : String) (d : V) (f : V → V) (m : Map V)
      → lookup j (modify_entry k d f m)
        ≡ (if k == j then some (f (unwrap_or (lookup j m) d)) else lookup j m)
  unfolding modify_entry
  lookup-modify_entry k j d f m =
      ground (arith, lookup-insert k j (f (unwrap_or (lookup k m) d)) m, eq_iff k j)

module _ {ℓ} {V : Type ℓ} where
  pub remove-HasUniqueKeys : (k : String) (m : Map V) → HasUniqueKeys m → HasUniqueKeys (remove k m)
  unfolding remove
  remove-HasUniqueKeys k [] u = tt
  remove-HasUniqueKeys k ((j, v) ∷ m) u = elim (Bool-cases (j == k)) [
    | inl same ↦ rw same (remove-HasUniqueKeys k m u.1)
    | inr other ↦ rw other (ground (arith, u.0, lookup-remove k j m), remove-HasUniqueKeys k m u.1)
  ]

  pub insert-HasUniqueKeys :
      (k : String) (v : V) (m : Map V) → HasUniqueKeys m → HasUniqueKeys (insert k v m)
  unfolding insert
  insert-HasUniqueKeys k v m u =
      (ground (arith, lookup-remove k k m, eq_iff k k), remove-HasUniqueKeys k m u)

  pub modify-HasUniqueKeys :
      (k : String) (f : V → V) (m : Map V) → HasUniqueKeys m → HasUniqueKeys (modify k f m)
  unfolding modify
  modify-HasUniqueKeys k f m u = elim (Option-cases (lookup k m)) [
    | inl e ↦ rw (e, modify) u
    | inr (v, e) ↦ rw (e, modify) (insert-HasUniqueKeys k (f v) m u)
  ]

  pub modify_entry-HasUniqueKeys :
      (k : String) (d : V) (f : V → V) (m : Map V)
      → HasUniqueKeys m
      → HasUniqueKeys (modify_entry k d f m)
  unfolding modify_entry
  modify_entry-HasUniqueKeys k d f m u = insert-HasUniqueKeys k (f (unwrap_or (lookup k m) d)) m u

-- `set.contains(k)`
unfoldable pub contains : List String → String → Bool
contains [] k = false
contains (j ∷ s) k = j == k || contains s k

-- `set.insert(k)`; its result says whether `k` was new
unfoldable pub set_insert : String → List String → List String
unfolding contains
set_insert k s = if contains s k then s else k ∷ s

-- `set.remove(k)`
unfoldable pub set_remove : String → List String → List String
set_remove k [] = []
set_remove k (j ∷ s) = let rest = set_remove k s in if j == k then rest else j ∷ rest

-- `set.extend(ks)`
unfoldable pub set_extend : List String → List String → List String
unfolding set_insert
set_extend [] s = s
set_extend (k ∷ ks) s = set_insert k (set_extend ks s)

pub contains-set_insert :
    (k j : String) (s : List String) → contains (set_insert k s) j ≡ (k == j || contains s j)
unfolding contains set_insert
contains-set_insert k j s = ground (arith, eq_iff k j)

pub contains-set_remove :
    (k j : String) (s : List String) → contains (set_remove k s) j ≡ (not (k == j) && contains s j)
unfolding contains set_remove
contains-set_remove k j [] = ground arith
contains-set_remove k j (i ∷ s) =
    ground (arith, contains-set_remove k j s, eq_iff i k, eq_iff i j, eq_iff k j)

pub contains-set_extend :
    (ks s : List String) (j : String)
    → contains (set_extend ks s) j ≡ (contains ks j || contains s j)
unfolding contains set_extend
contains-set_extend [] s j = refl
contains-set_extend (k ∷ ks) s j =
    ground (arith, contains-set_insert k j (set_extend ks s), contains-set_extend ks s j)

pub contains-filter :
    (p : String → Bool) (s : List String) (k : String)
    → contains (filter p s) k ≡ (contains s k && p k)
unfolding contains filter
contains-filter p [] k = refl
contains-filter p (j ∷ s) k = elim (Bool-cases (j == k)) [
  | inl same ↦
      let e : p j ≡ p k = ap p ((eq_iff j k).0 same) in ground (arith, contains-filter p s k)
  | inr other ↦ ground (arith, contains-filter p s k)
]

pub any-contains : (s : List String) (k : String) → any (λ j. j == k) s ≡ contains s k
unfolding contains any
any-contains [] k = refl
any-contains (j ∷ s) k = ap (λ b. j == k || b) (any-contains s k)
