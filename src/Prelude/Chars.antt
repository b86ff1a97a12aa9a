-- ===== src/Prelude/Chars.antt =====
-- Text as a list of code points: equality, `split`, `lines`, white space, `parse::<u64>()`, and
-- the components of a path, as the standard library has them.
pub mod Parts
pub mod Lines
use Prim.Native.Nat.{ℕ, ◌+◌, ◌-◌, ◌*◌, ◌^◌}
use Prim.Native.String.{String}
use mathlib.Core.Path.{◌≡◌, refl, ap₂}
use mathlib.Core.Logic.{◌↔◌}
use mathlib.Core.Bool.{Bool, true, false, ◌&&◌, ◌||◌, not}
use mathlib.Core.Option.{Option, none, some}
use mathlib.Core.List.{List, [], ◌∷◌}
use native.Mathlib.Omega.{arith}
use opencode_beacon.Prelude.Tests.{eqb, leb, if◌then◌else◌}
use opencode_beacon.Prelude.Lists.{filter}
use opencode_beacon.Prelude.Order.{codes}

abbrev pub Chars : Type 0
Chars = List ℕ

unfoldable pub chars_eq : Chars → Chars → Bool
chars_eq [] [] = true
chars_eq [] (d ∷ ds) = false
chars_eq (c ∷ cs) [] = false
chars_eq (c ∷ cs) (d ∷ ds) = eqb c d && chars_eq cs ds

chars_eq_of : (s t : Chars) → s ≡ t → chars_eq s t ≡ true
unfolding chars_eq
chars_eq_of [] t e = rw (← e)
chars_eq_of (c ∷ cs) t e = rw (← e) (ground (arith, chars_eq_of cs cs refl))

chars_eq→≡ : (s t : Chars) → chars_eq s t ≡ true → s ≡ t
unfolding chars_eq
chars_eq→≡ [] [] h = refl
chars_eq→≡ [] (d ∷ ds) h = cc
chars_eq→≡ (c ∷ cs) [] h = cc
chars_eq→≡ (c ∷ cs) (d ∷ ds) h = ap₂ ◌∷◌ (ground arith) (chars_eq→≡ cs ds (ground arith))

pub chars_eq_iff : (s t : Chars) → (chars_eq s t ≡ true) ↔ (s ≡ t)
chars_eq_iff s t = (chars_eq→≡ s t, chars_eq_of s t)

unfoldable pub push : ℕ → List Chars → List Chars
push c [] = (c ∷ []) ∷ []
push c (p ∷ ps) = (c ∷ p) ∷ ps

-- `str::split(char)`: one piece more than there are separators
unfoldable pub split : ℕ → Chars → List Chars
unfolding push
split sep [] = [] ∷ []
split sep (c ∷ cs) = let rest = split sep cs in if eqb c sep then [] ∷ rest else push c rest

unfoldable pub is_empty : Chars → Bool
is_empty [] = true
is_empty (c ∷ cs) = false

-- `char::is_whitespace`
unfoldable pub is_whitespace : ℕ → Bool
is_whitespace c =
    leb 9 c && leb c 13
    || eqb c 32
    || eqb c 0x85
    || eqb c 0xa0
    || eqb c 0x1680
    || leb 0x2000 c && leb c 0x200a
    || eqb c 0x2028
    || eqb c 0x2029
    || eqb c 0x202f
    || eqb c 0x205f
    || eqb c 0x3000

words_from : Chars → List Chars
unfolding push is_whitespace
words_from [] = [] ∷ []
words_from (c ∷ cs) = let rest = words_from cs in if is_whitespace c then [] ∷ rest else push c rest

-- `str::split_whitespace`
unfoldable pub split_whitespace : Chars → List Chars
unfolding words_from is_empty filter
split_whitespace s = filter (λ w. not (is_empty w)) (words_from s)

-- A carriage return at the end of a line belongs to its end.
drop_cr : Chars → Chars
drop_cr [] = []
drop_cr (c ∷ []) = if eqb c 13 then [] else c ∷ []
drop_cr (c ∷ d ∷ cs) = c ∷ drop_cr (d ∷ cs)

finish : List Chars → List Chars
unfolding drop_cr
finish [] = []
finish (p ∷ []) = elim p [ [] ↦ [] | c ∷ cs ↦ (c ∷ cs) ∷ [] ]
finish (p ∷ q ∷ ps) = drop_cr p ∷ finish (q ∷ ps)

-- `str::lines`: ends at "\n" or "\r\n"; there is no line after the last end
unfoldable pub lines : Chars → List Chars
unfolding split finish
lines s = finish (split 10 s)

abbrev pub u64_max : ℕ
u64_max = 2 ^ 64 - 1

is_digit : ℕ → Bool
is_digit c = leb 48 c && leb c 57

-- The digits of a number, most significant first; an overflow is an error.
digits : ℕ → ℕ → Chars → Option ℕ
unfolding is_digit
digits limit n [] = some n
digits limit n (c ∷ cs) =
    let n' = n * 10 + (c - 48) in
    let rest = digits limit n' cs in if is_digit c && leb n' limit then rest else none

-- `str::parse::<u64>` (and the narrower types, by their limit): an optional "+", then digits
unfoldable pub parse_number : ℕ → Chars → Option ℕ
unfolding digits
parse_number limit [] = none
parse_number limit (c ∷ cs) =
    if eqb c 43
    then elim cs [ [] ↦ none | d ∷ ds ↦ digits limit 0 (d ∷ ds) ]
    else digits limit 0 (c ∷ cs)

unfoldable pub is_absolute : Chars → Bool
is_absolute [] = false
is_absolute (c ∷ cs) = eqb c 47

abbrev pub is_dot : Chars → Bool
is_dot s = chars_eq s (46 ∷ [])

drop_dots : List Chars → List Chars
unfolding filter chars_eq
drop_dots = filter (λ p. not (is_dot p))

-- A "." at the start of a relative path is a component; elsewhere it is none.
relative_parts : List Chars → List Chars
unfolding drop_dots
relative_parts [] = []
relative_parts (p ∷ ps) = p ∷ drop_dots ps

-- `Path::components`, but for the leading root: the pieces between the slashes
unfoldable pub components : Chars → List Chars
unfolding split is_empty filter drop_dots relative_parts is_absolute
components s =
    let parts = filter (λ p. not (is_empty p)) (split 47 s) in
    if is_absolute s then drop_dots parts else relative_parts parts

parts_eq : List Chars → List Chars → Bool
unfolding chars_eq
parts_eq [] [] = true
parts_eq [] (q ∷ qs) = false
parts_eq (p ∷ ps) [] = false
parts_eq (p ∷ ps) (q ∷ qs) = chars_eq p q && parts_eq ps qs

abbrev pub bool_eq : Bool → Bool → Bool
bool_eq true b = b
bool_eq false b = not b

-- `==` on paths compares them by components
unfoldable pub path_eq : String → String → Bool
unfolding components parts_eq is_absolute
path_eq s t =
    bool_eq (is_absolute (codes s)) (is_absolute (codes t))
    && parts_eq (components (codes s)) (components (codes t))
