-- ===== src/Prelude/Chars/Parts.antt =====
-- What the components of a path can be.
use mathlib.Core.Path.{◌≡◌, refl, ap, ◌∙◌}
use mathlib.Core.Bool.{Bool, true, false, ◌&&◌, not}
use mathlib.Core.Logic.{inl, inr}
use mathlib.Core.List.{List, [], ◌∷◌}
use native.Mathlib.Omega.{arith}
use Prim.Native.Nat.{ℕ}
use opencode_beacon.Prelude.Tests.{eqb, if◌then◌else◌, Bool-cases}
use opencode_beacon.Prelude.Lists.{filter, any}
use opencode_beacon.Prelude.Chars.{Chars, split, is_absolute, components, push, is_dot, is_empty}

-- Some element fails the test.
abbrev pub breaks : (Chars → Bool) → List Chars → Bool
breaks p = any (λ x. not (p x))

abbrev pub lacks : ℕ → Chars → Bool
lacks sep s = not (any (λ c. eqb c sep) s)

filter-breaks :
    (p q : Chars → Bool) (xs : List Chars) → breaks p xs ≡ false → breaks p (filter q xs) ≡ false
unfolding filter any
filter-breaks p q [] h = refl
filter-breaks p q (x ∷ xs) h = ground (arith, filter-breaks p q xs)

filter-holds : (q : Chars → Bool) (xs : List Chars) → breaks q (filter q xs) ≡ false
unfolding filter any
filter-holds q [] = refl
filter-holds q (x ∷ xs) = ground (arith, filter-holds q xs)

split-cases :
    (sep c : ℕ) (cs : Chars)
    → split sep (c ∷ cs) ≡ (if eqb c sep then [] ∷ split sep cs else push c (split sep cs))
unfolding split
split-cases sep c cs = refl

push-lacks :
    (sep c : ℕ) (ps : List Chars)
    → eqb c sep ≡ false
    → breaks (lacks sep) ps ≡ false
    → breaks (lacks sep) (push c ps) ≡ false
unfolding push any
push-lacks sep c [] e h = ground arith
push-lacks sep c (p ∷ ps) e h = ground arith

-- No piece of a split text has the separator.
pub split-lacks : (sep : ℕ) (s : Chars) → breaks (lacks sep) (split sep s) ≡ false
unfolding split any
split-lacks sep [] = refl
split-lacks sep (c ∷ cs) = elim (Bool-cases (eqb c sep)) [
  | inl same ↦ ground (arith, same, split-lacks sep cs)
  | inr other ↦ rw (other, split) (push-lacks sep c (split sep cs) other (split-lacks sep cs))
]

-- A component of an absolute path is not empty, is not ".", and has no slash.
abbrev pub is_part : Chars → Bool
is_part c = not (is_empty c) && not (is_dot c) && lacks 47 c

parts-join :
    (ps : List Chars)
    → breaks (λ c. not (is_empty c)) ps ≡ false
    → breaks (λ c. not (is_dot c)) ps ≡ false
    → breaks (lacks 47) ps ≡ false
    → breaks is_part ps ≡ false
unfolding any
parts-join [] a b c = refl
parts-join (p ∷ ps) a b c = ground (arith, parts-join ps)

absolute-components :
    (s : Chars)
    → is_absolute s ≡ true
    → components s ≡ filter (λ p. not (is_dot p)) (filter (λ p. not (is_empty p)) (split 47 s))
unfolding components
absolute-components s h = rw (h, components) refl

pub components-is_part : (s : Chars) → is_absolute s ≡ true → breaks is_part (components s) ≡ false
components-is_part s h =
    let full = filter (λ p. not (is_empty p)) (split 47 s) in
    ap (breaks is_part) (absolute-components s h)
    ∙ parts-join (filter (λ p. not (is_dot p)) full)
        (filter-breaks (λ p. not (is_empty p)) (λ p. not (is_dot p)) full
          (filter-holds (λ p. not (is_empty p)) (split 47 s)))
        (filter-holds (λ p. not (is_dot p)) full)
        (filter-breaks (lacks 47) (λ p. not (is_dot p)) full
          (filter-breaks (lacks 47) (λ p. not (is_empty p)) (split 47 s) (split-lacks 47 s)))
