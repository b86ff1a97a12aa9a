-- ===== src/Prelude/Table.antt =====
-- Hash maps whose keys are not texts: association lists over a key type with a Boolean equality.
use opencode_beacon.Prelude.Tests.{if◌then◌else◌, Bool-cases, filter_option}
use mathlib.Core.Path.{◌≡◌, refl, ap}
use mathlib.Core.Logic.{◌↔◌, inl, inr}
use mathlib.Core.Bool.{Bool, true}
use mathlib.Core.Option.{Option, none, some}
use mathlib.Core.Option
use mathlib.Core.List.{List, [], ◌∷◌}
use native.Mathlib.Omega.{arith}

-- An equality test on keys.
pub record Key {ℓ} (K : Type ℓ) : Type ℓ where
  pub same : K → K → Bool
  pub same_iff : (a b : K) → (same a b ≡ true) ↔ (a ≡ b)

abbrev pub Table : Type 0 → Type 0 → Type 0
Table K V = List (K × V)

module _ {K V : Type 0} (key : Key K) where
  unfoldable pub lookup : K → Table K V → Option V
  lookup k [] = none
  lookup k ((j, v) ∷ m) = if key.same j k then some v else lookup k m

  unfoldable pub remove : K → Table K V → Table K V
  remove k [] = []
  remove k ((j, v) ∷ m) = let rest = remove k m in if key.same j k then rest else (j, v) ∷ rest

  unfoldable pub insert : K → V → Table K V → Table K V
  unfolding remove
  insert k v m = (k, v) ∷ remove k m

  unfoldable pub retain : (K → V → Bool) → Table K V → Table K V
  retain p [] = []
  retain p ((j, v) ∷ m) = let rest = retain p m in if p j v then (j, v) ∷ rest else rest

  -- `values_mut`
  unfoldable pub map_values : (V → V) → Table K V → Table K V
  map_values f [] = []
  map_values f ((j, v) ∷ m) = (j, f v) ∷ map_values f m

  abbrev pub HasUniqueKeys : Table K V → Type 0
  HasUniqueKeys [] = Unit
  HasUniqueKeys ((k, v) ∷ m) = (lookup k m ≡ none) × HasUniqueKeys m

  pub lookup-remove :
      (k j : K) (m : Table K V)
      → lookup j (remove k m) ≡ (if key.same k j then none else lookup j m)
  unfolding lookup remove
  lookup-remove k j [] = ground arith
  lookup-remove k j ((i, v) ∷ m) =
      ground (arith, lookup-remove k j m, key.same_iff i k, key.same_iff i j, key.same_iff k j)

  pub lookup-insert :
      (k j : K) (v : V) (m : Table K V)
      → lookup j (insert k v m) ≡ (if key.same k j then some v else lookup j m)
  unfolding lookup insert
  lookup-insert k j v m = ground (arith, lookup-remove k j m)

  pub lookup-map_values :
      (f : V → V) (j : K) (m : Table K V) → lookup j (map_values f m) ≡ Option.map f (lookup j m)
  unfolding lookup map_values
  lookup-map_values f j [] = refl
  lookup-map_values f j ((i, v) ∷ m) = ground (arith, lookup-map_values f j m)

  pub lookup-retain :
      (p : K → V → Bool) (j : K) (m : Table K V)
      → HasUniqueKeys m
      → lookup j (retain p m) ≡ filter_option (p j) (lookup j m)
  unfolding lookup retain
  lookup-retain p j [] u = refl
  lookup-retain p j ((i, v) ∷ m) u = elim (Bool-cases (key.same i j)) [
    | inl same ↦
        let e = (key.same_iff i j).0 same in
        ground (arith, lookup-retain p j m u.1, u.0, ap (λ x. p x v) e, ap (λ x. lookup x m) e)
    | inr other ↦ ground (arith, lookup-retain p j m u.1)
  ]

  pub remove-HasUniqueKeys : (k : K) (m : Table K V) → HasUniqueKeys m → HasUniqueKeys (remove k m)
  unfolding remove
  remove-HasUniqueKeys k [] u = tt
  remove-HasUniqueKeys k ((j, v) ∷ m) u = elim (Bool-cases (key.same j k)) [
    | inl same ↦ rw same (remove-HasUniqueKeys k m u.1)
    | inr other ↦ rw other (ground (arith, u.0, lookup-remove k j m), remove-HasUniqueKeys k m u.1)
  ]

  pub insert-HasUniqueKeys :
      (k : K) (v : V) (m : Table K V) → HasUniqueKeys m → HasUniqueKeys (insert k v m)
  unfolding insert
  insert-HasUniqueKeys k v m u =
      (ground (arith, lookup-remove k k m, key.same_iff k k), remove-HasUniqueKeys k m u)

  pub map_values-HasUniqueKeys :
      (f : V → V) (m : Table K V) → HasUniqueKeys m → HasUniqueKeys (map_values f m)
  unfolding map_values
  map_values-HasUniqueKeys f [] u = tt
  map_values-HasUniqueKeys f ((j, v) ∷ m) u =
      (ground (arith, u.0, lookup-map_values f j m), map_values-HasUniqueKeys f m u.1)

  pub retain-HasUniqueKeys :
      (p : K → V → Bool) (m : Table K V) → HasUniqueKeys m → HasUniqueKeys (retain p m)
  unfolding retain
  retain-HasUniqueKeys p [] u = tt
  retain-HasUniqueKeys p ((j, v) ∷ m) u = elim (Bool-cases (p j v)) [
    | inl keep ↦
        rw keep (ground (arith, u.0, lookup-retain p j m u.1), retain-HasUniqueKeys p m u.1)
    | inr drop ↦ rw drop (retain-HasUniqueKeys p m u.1)
  ]
