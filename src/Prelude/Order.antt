-- ===== src/Prelude/Order.antt =====
-- Comparison functions in the style of Rust's `Ord::cmp`, their combinators and their laws.
use Prim.Native.Nat.{ℕ, compare, Ordering}
use Prim.Native.Char.{code}
use Prim.Native.String.{String}
use mathlib.Core.Path.{◌≡◌, refl, ap₂}
use mathlib.Core.Bool.{Bool, true, false}
use mathlib.Core.Option.{Option, none, some}
use mathlib.Core.List.{List, [], ◌∷◌}
use native.Mathlib.Omega.{arith}
use text.Mathlib.TextEquality.{Char-path}

-- `Ordering::reverse`
abbrev pub flip : Ordering → Ordering
flip Ordering.lt = Ordering.gt
flip Ordering.eq = Ordering.eq
flip Ordering.gt = Ordering.lt

-- `Ordering::then`
abbrev pub then_with : Ordering → Ordering → Ordering
then_with Ordering.lt o = Ordering.lt
then_with Ordering.eq o = o
then_with Ordering.gt o = Ordering.gt

-- `Ordering::is_le`
abbrev pub is_le : Ordering → Bool
is_le Ordering.gt = false
is_le _ = true

abbrev pub Cmp {ℓ} : Type ℓ → Type ℓ
Cmp A = A → A → Ordering

-- A total preorder, given by its comparison.
pub record IsOrder {ℓ} {A : Type ℓ} (cmp : Cmp A) : Type ℓ where
  pub flipped : (a b : A) → cmp b a ≡ flip (cmp a b)
  pub le_trans :
      (a b c : A) → is_le (cmp a b) ≡ true → is_le (cmp b c) ≡ true → is_le (cmp a c) ≡ true

module _ {ℓ} {A : Type ℓ} {cmp : Cmp A} (order : IsOrder cmp) where
  -- Where the ends of a chain are equal in the order, so is the middle.
  pub eq_middle :
      (a b c : A)
      → is_le (cmp a b) ≡ true
      → is_le (cmp b c) ≡ true
      → cmp a c ≡ Ordering.eq
      → (cmp a b ≡ Ordering.eq) × (cmp b c ≡ Ordering.eq)
  eq_middle a b c p q e = ground (
    arith,
    order.flipped a c,
    order.flipped a b,
    order.flipped b c,
    order.le_trans c a b,
    order.le_trans b c a,
  )

  pub total : (a b : A) → is_le (cmp a b) ≡ false → is_le (cmp b a) ≡ true
  total a b h = ground (arith, order.flipped a b)

unfoldable pub order_by {ℓ κ} : {A : Type ℓ} {B : Type κ} → (A → B) → Cmp B → Cmp A
order_by f cmp a b = cmp (f a) (f b)

-- `then_with` of two comparisons
unfoldable pub order_then {ℓ} : {A : Type ℓ} → Cmp A → Cmp A → Cmp A
order_then c d a b = then_with (c a b) (d a b)

-- `None` sorts before every `Some`.
unfoldable pub order_option {ℓ} : {A : Type ℓ} → Cmp A → Cmp (Option A)
order_option cmp none none = Ordering.eq
order_option cmp none (some b) = Ordering.lt
order_option cmp (some a) none = Ordering.gt
order_option cmp (some a) (some b) = cmp a b

unfoldable pub order_list {ℓ} : {A : Type ℓ} → Cmp A → Cmp (List A)
order_list cmp [] [] = Ordering.eq
order_list cmp [] (b ∷ bs) = Ordering.lt
order_list cmp (a ∷ as') [] = Ordering.gt
order_list cmp (a ∷ as') (b ∷ bs) = then_with (cmp a b) (order_list cmp as' bs)

abbrev pub codes : String → List ℕ
codes String.[] = []
codes (String.◌∷◌ c s) = code c ∷ codes s

-- `str::cmp`: the byte order of UTF-8 is the order of the code points.
unfoldable pub str_cmp : Cmp String
unfolding order_list
str_cmp s t = order_list compare (codes s) (codes t)

module _ {ℓ κ} {A : Type ℓ} {B : Type κ} (f : A → B) {cmp : Cmp B} where
  pub order_by-IsOrder : IsOrder cmp → IsOrder (order_by f cmp)
  unfolding order_by
  order_by-IsOrder o = record {
    flipped = λ a b. o.flipped (f a) (f b);
    le_trans = λ a b c. o.le_trans (f a) (f b) (f c);
  }

module _ {ℓ} {A : Type ℓ} {c d : Cmp A} (oc : IsOrder c) (od : IsOrder d) where
  pub order_then-IsOrder : IsOrder (order_then c d)
  unfolding order_then
  order_then-IsOrder = record {
    flipped = λ x y. ground (arith, oc.flipped x y, od.flipped x y);
    le_trans =
        λ x y z p q. ground (arith, oc.le_trans x y z, od.le_trans x y z, eq_middle oc x y z);
  }

module _ {ℓ} {A : Type ℓ} {cmp : Cmp A} (o : IsOrder cmp) where
  option_flipped : (a b : Option A) → order_option cmp b a ≡ flip (order_option cmp a b)
  unfolding order_option
  option_flipped none none = refl
  option_flipped none (some b) = refl
  option_flipped (some a) none = refl
  option_flipped (some a) (some b) = o.flipped a b

  option_le_trans :
      (a b c : Option A)
      → is_le (order_option cmp a b) ≡ true
      → is_le (order_option cmp b c) ≡ true
      → is_le (order_option cmp a c) ≡ true
  unfolding order_option
  option_le_trans none b none p q = refl
  option_le_trans none b (some c) p q = refl
  option_le_trans (some a) none c p q = cc
  option_le_trans (some a) (some b) none p q = cc
  option_le_trans (some a) (some b) (some c) p q = o.le_trans a b c p q

  pub order_option-IsOrder : IsOrder (order_option cmp)
  order_option-IsOrder = record { flipped = option_flipped; le_trans = option_le_trans }

  list_flipped : (a b : List A) → order_list cmp b a ≡ flip (order_list cmp a b)
  unfolding order_list
  list_flipped [] [] = refl
  list_flipped [] (b ∷ bs) = refl
  list_flipped (a ∷ as') [] = refl
  list_flipped (a ∷ as') (b ∷ bs) = ground (arith, o.flipped a b, list_flipped as' bs)

  list_le_trans :
      (a b c : List A)
      → is_le (order_list cmp a b) ≡ true
      → is_le (order_list cmp b c) ≡ true
      → is_le (order_list cmp a c) ≡ true
  unfolding order_list
  list_le_trans [] b [] p q = refl
  list_le_trans [] b (c ∷ cs) p q = refl
  list_le_trans (a ∷ as') [] c p q = cc
  list_le_trans (a ∷ as') (b ∷ bs) [] p q = cc
  list_le_trans (a ∷ as') (b ∷ bs) (c ∷ cs) p q =
      ground (arith, o.le_trans a b c, list_le_trans as' bs cs, eq_middle o a b c)

  pub order_list-IsOrder : IsOrder (order_list cmp)
  order_list-IsOrder = record { flipped = list_flipped; le_trans = list_le_trans }

pub compare-IsOrder : IsOrder compare
compare-IsOrder = record { flipped = λ a b. ground arith; le_trans = λ a b c p q. ground arith }

pub str_cmp-IsOrder : IsOrder str_cmp
unfolding str_cmp order_by
str_cmp-IsOrder = order_by-IsOrder codes (order_list-IsOrder compare-IsOrder)

-- Only equal texts compare equal.
codes-injective : (s t : String) → order_list compare (codes s) (codes t) ≡ Ordering.eq → s ≡ t
unfolding order_list
codes-injective String.[] String.[] h = refl
codes-injective String.[] (String.◌∷◌ c t) h = cc
codes-injective (String.◌∷◌ c s) String.[] h = cc
codes-injective (String.◌∷◌ c s) (String.◌∷◌ d t) h =
    ap₂ String.◌∷◌ (Char-path c d (ground arith)) (codes-injective s t (ground arith))

pub str_cmp-eq : (s t : String) → str_cmp s t ≡ Ordering.eq → s ≡ t
unfolding str_cmp
str_cmp-eq s t h = codes-injective s t h
