-- ===== src/Prelude/Files.antt =====
-- File results as values, paths by components, and the file system's calls as a parameter.
use mathlib.Core.Logic.{◌⊎◌, inl, inr}
use Prim.Native.Nat.{ℕ, zero, suc, ◌+◌, ◌/◌, ◌%◌}
use mathlib.Core.Path.{◌≡◌, refl}
use mathlib.Core.Bool.{Bool, true, false, ◌&&◌}
use mathlib.Core.Option.{Option, none, some}
use mathlib.Core.List.{List, [], ◌∷◌, ◌++◌}
use opencode_beacon.Prelude.Tests.{ltb, if◌then◌else◌}
use opencode_beacon.Prelude.Chars.{Chars, chars_eq, bool_eq}

-- `io::ErrorKind`, as far as it is told apart
pub data ErrorKind : Type 0 where
  file_missing invalid_data other_error : ErrorKind

pub data IoResult {ℓ} (A : Type ℓ) : Type ℓ where
  done : A → IoResult A
  failed : ErrorKind → IoResult A

-- `?`
abbrev pub and_then {ℓ κ} : {A : Type ℓ} {B : Type κ} → IoResult A → (A → IoResult B) → IoResult B
and_then (done a) f = f a
and_then (failed e) f = failed e

abbrev pub is_done_and {ℓ} : {A : Type ℓ} → IoResult A → (A → Bool) → Bool
is_done_and (done a) p = p a
is_done_and (failed e) p = false

abbrev pub or_invalid {ℓ} : {A : Type ℓ} → Option A → IoResult A
or_invalid none = failed invalid_data
or_invalid (some a) = done a

-- A path: whether it starts at the root, and its components.
pub record FilePath : Type 0 where
  pub rooted : Bool
  pub parts : List Chars

-- `Path::join`
abbrev pub join : FilePath → FilePath → FilePath
join a b = if b.rooted then b else record a { parts = a.parts ++ b.parts }

abbrev pub below : List Chars → FilePath
below parts = record { rooted = false; parts = parts }

unfoldable pub is_prefix : List Chars → List Chars → Bool
unfolding chars_eq
is_prefix [] qs = true
is_prefix (p ∷ ps) [] = false
is_prefix (p ∷ ps) (q ∷ qs) = chars_eq p q && is_prefix ps qs

-- `Path::starts_with` compares components.
unfoldable pub starts_with : FilePath → FilePath → Bool
unfolding is_prefix
starts_with path base = bool_eq path.rooted base.rooted && is_prefix base.parts path.parts

-- `==` on paths
unfoldable pub same_path : FilePath → FilePath → Bool
unfolding is_prefix
same_path a b = bool_eq a.rooted b.rooted && is_prefix a.parts b.parts && is_prefix b.parts a.parts

pub record Metadata : Type 0 where
  pub dev : ℕ
  pub ino : ℕ

-- What the calls of the file system answer at one moment.
pub record Files : Type 0 where
  pub read_to_string : FilePath → IoResult Chars
  pub canonicalize : FilePath → IoResult FilePath
  pub metadata : FilePath → IoResult Metadata

-- `to_string` of a number
decimal_from : ℕ → ℕ → Chars → Chars
decimal_from zero n tail = tail
decimal_from (suc fuel) n tail =
    let rest = decimal_from fuel (n / 10) ((48 + n % 10) ∷ tail) in
    if ltb n 10 then (48 + n) ∷ tail else rest

unfoldable pub decimal : ℕ → Chars
unfolding decimal_from
decimal n = decimal_from (suc n) n []

pub IoResult-cases {ℓ} :
    {A : Type ℓ} (r : IoResult A) → ((a : A) × (r ≡ done a)) ⊎ ((e : ErrorKind) × (r ≡ failed e))
IoResult-cases (done a) = inl (a, refl)
IoResult-cases (failed e) = inr (e, refl)

-- What succeeds has succeeded in both its steps.
pub and_then-done {ℓ κ} :
    {A : Type ℓ} {B : Type κ} (x : IoResult A) (f : A → IoResult B) (b : B)
    → and_then x f ≡ done b
    → (a : A) × (x ≡ done a) × (f a ≡ done b)
and_then-done (done a) f b h = (a, refl, h)
and_then-done (failed e) f b h = cc
