-- ===== src/Prelude/Text.antt =====
-- Equality tests on texts as identifiers, and the byte order of Rust's `String::cmp`.
use Prim.Native.String.{String, ◌++◌}
use mathlib.Core.Path.{◌≡◌, refl}
use mathlib.Core.Bool.{true}
use text.Mathlib.Text.{◌==◌}
use text.Mathlib.TextEquality.{eq_iff}

pub ==_refl : (s : String) → (s == s) ≡ true
==_refl s = (eq_iff s s).1 refl

pub ==→≡ : (s t : String) → (s == t) ≡ true → s ≡ t
==→≡ s t h = (eq_iff s t).0 h

-- Formatted messages are put together from their parts.
abbrev pub append_text : String → String → String
append_text s t = s ++ t
