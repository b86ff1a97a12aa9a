-- ===== src/Prelude/Chars/Lines.antt =====
-- The lines of a text that is put together from lines.
use mathlib.Core.Path.{◌≡◌, refl, ap}
use mathlib.Core.Bool.{true, false}
use mathlib.Core.Logic.{inl, inr}
use mathlib.Core.List.{List, [], ◌∷◌, ◌++◌}
use native.Mathlib.Omega.{arith}
use Prim.Native.Nat.{ℕ}
use opencode_beacon.Prelude.Tests.{eqb, Bool-cases}
use opencode_beacon.Prelude.Lists.{any}
use opencode_beacon.Prelude.Chars.{Chars, split, push, is_empty, lines, finish, drop_cr}
use opencode_beacon.Prelude.Chars.Parts.{lacks}

split-cons : (sep : ℕ) (s : Chars) → (q : Chars) × (ps : List Chars) × (split sep s ≡ q ∷ ps)
unfolding split push
split-cons sep [] = ([], [], refl)
split-cons sep (c ∷ cs) =
    let (q, ps, e) = split-cons sep cs in
    elim (Bool-cases (eqb c sep)) [
      | inl same ↦ ([], split sep cs, rw (same, split) refl)
      | inr other ↦ (c ∷ q, ps, rw (other, e, split, push) refl)
    ]

split_line :
    (sep : ℕ) (x r : Chars) → lacks sep x ≡ true → split sep (x ++ (sep ∷ r)) ≡ x ∷ split sep r
unfolding split any push
split_line sep [] r h = let same : eqb sep sep ≡ true = ground arith in rw (same, split) refl
split_line sep (c ∷ x) r h =
    let other : eqb c sep ≡ false = ground (arith, h) in
    let rest = split_line sep x r (ground (arith, h)) in rw (other, rest, split, push) refl

split_last : (sep : ℕ) (x : Chars) → lacks sep x ≡ true → split sep x ≡ x ∷ []
unfolding split any push
split_last sep [] h = refl
split_last sep (c ∷ x) h =
    let other : eqb c sep ≡ false = ground (arith, h) in
    let rest = split_last sep x (ground (arith, h)) in rw (other, rest, split, push) refl

drop_cr-lacks : (x : Chars) → lacks 13 x ≡ true → drop_cr x ≡ x
unfolding drop_cr any
drop_cr-lacks [] h = refl
drop_cr-lacks (c ∷ []) h = let other : eqb c 13 ≡ false = ground (arith, h) in rw other refl
drop_cr-lacks (c ∷ d ∷ x) h = ap (λ y. c ∷ y) (drop_cr-lacks (d ∷ x) (ground (arith, h)))

-- A line, its end, and more.
pub lines_step :
    (x r : Chars) → lacks 10 x ≡ true → lacks 13 x ≡ true → lines (x ++ (10 ∷ r)) ≡ x ∷ lines r
unfolding lines finish
lines_step x r a b =
    let (q, ps, e) = split-cons 10 r in
    rw (split_line 10 x r a, e, drop_cr-lacks x b, lines, finish) refl

-- A last line that has no end.
pub lines_last : (x : Chars) → lacks 10 x ≡ true → is_empty x ≡ false → lines x ≡ x ∷ []
unfolding lines finish is_empty
lines_last [] a b = absurd (ground (arith, b))
lines_last (c ∷ x) a b = rw (split_last 10 (c ∷ x) a, lines, finish) refl
