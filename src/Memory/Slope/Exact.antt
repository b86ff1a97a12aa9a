-- ===== src/Memory/Slope/Exact.antt =====
-- When the slope exists, and its exact value (src/memory.rs).
use mathlib.Core.Path.{subst}
use native.Mathlib.Nat.{mul-div-le, mul-le-mul_right}
use opencode_beacon.Prelude.{
  ℕ, ◌+◌, ◌-◌, ◌*◌, ◌/◌, ◌^◌, ◌≤◌, ◌<◌, Bool, false, none, some, List, [], ◌∷◌, any, leb, ltb,
  if◌then◌else◌, is_some, ◌≡◌, refl, arith, Bool-cases, Option-cases, inl, inr, ap, zero, suc, sym,
  ◌∙◌,
}
use opencode_beacon.Prelude.Integers.{
  ℤ, pos, neg, ◌⊖◌, on_size, clamp, saturating_mul, div_toward_zero,
}
use opencode_beacon.Memory.{Sample, second, slope_window}
use opencode_beacon.Memory.Slope.{last, last_before, slope}

last_before-any :
    (cutoff : ℕ) (xs : List Sample) → is_some (last_before cutoff xs) ≡ any (λ x. leb x.0 cutoff) xs
unfolding last_before any
last_before-any cutoff [] = refl
last_before-any cutoff (x ∷ xs) = ground (arith, last_before-any cutoff xs)

last_before-le :
    (cutoff : ℕ) (xs : List Sample) (y : Sample) → last_before cutoff xs ≡ some y → y.0 ≤ cutoff
unfolding last_before
last_before-le cutoff [] y h = cc
last_before-le cutoff (x ∷ xs) y h = ground (arith, last_before-le cutoff xs y)

-- The change for each minute between two samples.
abbrev pub per_minute : Sample → Sample → ℤ
per_minute newest old =
    let seconds = (newest.0 - old.0) / second in
    clamp 64 (div_toward_zero (saturating_mul 128 (newest.1 ⊖ old.1) 60) seconds)

slope-cases :
    (xs : List Sample)
    → slope xs ≡ elim (last xs) [
      | none ↦ none
      | some newest ↦
          if ltb newest.0 slope_window
          then none
          else elim (last_before (newest.0 - slope_window) xs) [
            | none ↦ none
            | some old ↦
                if ltb ((newest.0 - old.0) / second) (slope_window / second)
                then none
                else some (per_minute newest old)
          ]
    ]
unfolding slope
slope-cases xs = refl

whole_window :
    (a b : ℕ) → slope_window ≤ a → b ≤ a - slope_window → slope_window / second ≤ (a - b) / second
whole_window a b h k = omega (arith, h, k)

any_shift :
    (t : ℕ) (xs : List Sample)
    → slope_window ≤ t
    → any (λ x. leb x.0 (t - slope_window)) xs ≡ any (λ x. leb (x.0 + slope_window) t) xs
unfolding any
any_shift t [] h = refl
any_shift t (x ∷ xs) h = ground (arith, any_shift t xs h)

any_early :
    (t : ℕ) (xs : List Sample) → t < slope_window → any (λ x. leb (x.0 + slope_window) t) xs ≡ false
unfolding any
any_early t [] h = refl
any_early t (x ∷ xs) h = ground (arith, any_early t xs h)

-- There is a slope exactly when some sample is at least thirty minutes older than the last one;
-- so the later test of the whole seconds never refuses a pair of samples.
pub slope_exists :
    (xs : List Sample)
    → is_some (slope xs) ≡ elim (last xs) [
      | none ↦ false
      | some newest ↦ any (λ x. leb (x.0 + slope_window) newest.0) xs
    ]
slope_exists xs = elim (Option-cases (last xs)) [
  | inl e ↦ ground (arith, e, slope-cases xs)
  | inr (newest, e) ↦ elim (Bool-cases (ltb newest.0 slope_window)) [
    | inl early ↦ ground (arith, e, early, slope-cases xs, any_early newest.0 xs (ground arith))
    | inr late ↦ elim (Option-cases (last_before (newest.0 - slope_window) xs)) [
      | inl f ↦ ground (
        arith,
        e,
        f,
        late,
        slope-cases xs,
        last_before-any (newest.0 - slope_window) xs,
        any_shift newest.0 xs (ground arith),
      )
      | inr (old, f) ↦ ground (
        arith,
        e,
        f,
        late,
        slope-cases xs,
        last_before-any (newest.0 - slope_window) xs,
        any_shift newest.0 xs (ground arith),
        whole_window newest.0 old.0 (ground arith)
            (last_before-le (newest.0 - slope_window) xs old f),
      )
    ]
  ]
]

abbrev pub is_u64 : ℕ → Bool
is_u64 n = ltb n (2 ^ 64)

small_quotient : (n d : ℕ) → n < 2 ^ 64 → 1800 ≤ d → n * 60 / d ≤ 2 ^ 63 - 1
small_quotient n d h k = omega (arith, h, mul-div-le (n * 60) d, mul-le-mul_right (n * 60 / d) k)

last-any :
    (p : Sample → Bool) (xs : List Sample) (y : Sample)
    → last xs ≡ some y
    → any p xs ≡ false
    → p y ≡ false
unfolding any
last-any p [] y e h = cc
last-any p (x ∷ []) y e h =
    let same : x ≡ y = ground (arith, e) in
    let outside : p x ≡ false = ground (arith, h) in subst (λ z. p z ≡ false) same outside
last-any p (x ∷ z ∷ xs) y e h = last-any p (z ∷ xs) y e (ground arith)

last_before-any_of :
    (p : Sample → Bool) (cutoff : ℕ) (xs : List Sample) (y : Sample)
    → last_before cutoff xs ≡ some y
    → any p xs ≡ false
    → p y ≡ false
unfolding any last_before
last_before-any_of p cutoff [] y e h = cc
last_before-any_of p cutoff (x ∷ xs) y e h = elim (Option-cases (last_before cutoff xs)) [
  | inl f ↦
      let same : x ≡ y = ground (arith, e, f) in
      let outside : p x ≡ false = ground (arith, h) in subst (λ z. p z ≡ false) same outside
  | inr (z, f) ↦ last_before-any_of p cutoff xs y (ground (arith, e, f)) (ground (arith, h))
]

-- The change in a minute, by whole seconds, rounded toward zero.
abbrev pub exact_change : Sample → Sample → ℤ
exact_change newest old =
    on_size (λ n. n * 60 / ((newest.0 - old.0) / second))
      (λ n. n * 60 / ((newest.0 - old.0) / second)) (newest.1 ⊖ old.1)

on_size-neg :
    (up down : ℕ → ℕ) (n : ℕ) → up 0 ≡ 0 → down 0 ≡ 0 → on_size up down (neg n) ≡ neg (down n)
on_size-neg up down zero u d = ap pos u ∙ sym (ap neg d)
on_size-neg up down (suc n) u d = refl

zero_quotient : (d : ℕ) → 1800 ≤ d → 0 / d ≡ 0
zero_quotient d k = omega (arith, mul-div-le 0 d, mul-le-mul_right (0 / d) k)

clamp-pos : (w n : ℕ) → n ≤ 2 ^ (w - 1) - 1 → clamp w (pos n) ≡ pos n
unfolding clamp
clamp-pos w n h = ground (arith, h)

clamp-neg : (w n : ℕ) → n ≤ 2 ^ (w - 1) → clamp w (neg n) ≡ neg n
unfolding clamp
clamp-neg w zero h = ground (arith, h)
clamp-neg w (suc n) h = ground (arith, h)

-- A size below 2^64, sixtyfold and divided by 1800 or more, reaches no bound.
unclamped_pos :
    (n d : ℕ)
    → n < 2 ^ 64
    → 1800 ≤ d
    → clamp 64 (div_toward_zero (saturating_mul 128 (pos n) 60) d) ≡ pos (n * 60 / d)
unfolding div_toward_zero saturating_mul
unclamped_pos n d h k =
    ap (λ x. clamp 64 (on_size (λ a. a / d) (λ a. a / d) x))
      (clamp-pos 128 (n * 60) (omega (arith, h)))
    ∙ clamp-pos 64 (n * 60 / d) (small_quotient n d h k)

unclamped_neg :
    (n d : ℕ)
    → n < 2 ^ 64
    → 1800 ≤ d
    → clamp 64 (div_toward_zero (saturating_mul 128 (neg n) 60) d) ≡ neg (n * 60 / d)
unfolding div_toward_zero saturating_mul
unclamped_neg n d h k =
    ap (λ x. clamp 64 (on_size (λ a. a / d) (λ a. a / d) (clamp 128 x)))
      (on_size-neg (λ a. a * 60) (λ a. a * 60) n (omega arith) (omega arith))
    ∙ ap (λ x. clamp 64 (on_size (λ a. a / d) (λ a. a / d) x))
        (clamp-neg 128 (n * 60) (omega (arith, h)))
    ∙ ap (clamp 64)
        (on_size-neg (λ a. a / d) (λ a. a / d) (n * 60) (zero_quotient d k) (zero_quotient d k))
    ∙ clamp-neg 64 (n * 60 / d) (omega (arith, small_quotient n d h k))

exact_neg :
    (n d : ℕ) → 1800 ≤ d → on_size (λ a. a * 60 / d) (λ a. a * 60 / d) (neg n) ≡ neg (n * 60 / d)
exact_neg n d k =
    let none_lost : 0 * 60 / d ≡ 0 = zero_quotient d k in
    on_size-neg (λ a. a * 60 / d) (λ a. a * 60 / d) n none_lost none_lost

unclamped :
    (a b d : ℕ)
    → a < 2 ^ 64
    → b < 2 ^ 64
    → 1800 ≤ d
    → clamp 64 (div_toward_zero (saturating_mul 128 (a ⊖ b) 60) d)
      ≡ on_size (λ n. n * 60 / d) (λ n. n * 60 / d) (a ⊖ b)
unfolding ◌⊖◌
unclamped a b d ha hb hd = elim (Bool-cases (leb b a)) [
  | inl up ↦ rw (up, ◌⊖◌) (unclamped_pos (a - b) d (omega (arith, ha)) hd)
  | inr down ↦
      rw (down, ◌⊖◌) (unclamped_neg (b - a) d (omega (arith, hb)) hd ∙ sym (exact_neg (b - a) d hd))
]

-- Where all samples are 64-bit values, a slope is the exact change for each minute, in whole
-- seconds and rounded toward zero, from the last sample that is thirty minutes older to the last
-- of all: neither the saturating product nor the clamp ever changes it.
pub slope_exact :
    (xs : List Sample) (z : ℤ)
    → any (λ x. leb (2 ^ 64) x.1) xs ≡ false
    → slope xs ≡ some z
    → (newest : Sample) × (old : Sample) × (last xs ≡ some newest)
      × (last_before (newest.0 - slope_window) xs ≡ some old)
      × (z ≡ exact_change newest old)
slope_exact xs z small h = elim (Option-cases (last xs)) [
  | inl e ↦ absurd (ground (arith, e, h, slope-cases xs))
  | inr (newest, e) ↦ elim (Option-cases (last_before (newest.0 - slope_window) xs)) [
    | inl f ↦ absurd (ground (arith, e, f, h, slope-cases xs))
    | inr (old, f) ↦
        let value : (slope_window / second ≤ (newest.0 - old.0) / second)
            × (z ≡ per_minute newest old) =
          ground (arith, e, f, h, slope-cases xs) in
        (
          newest,
          old,
          e,
          f,
          value.1
              ∙ unclamped newest.1 old.1 ((newest.0 - old.0) / second)
                  (ground (arith, last-any (λ x. leb (2 ^ 64) x.1) xs newest e small))
                  (ground (
                    arith,
                    last_before-any_of (λ x. leb (2 ^ 64) x.1) (newest.0 - slope_window) xs old f
                        small,
                  ))
                  (omega (arith, value.0)),
        )
  ]
]
