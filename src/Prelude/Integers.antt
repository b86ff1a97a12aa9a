-- ===== src/Prelude/Integers.antt =====
-- Integers over the native numbers: `pos n` is n, `negsuc n` is -(n + 1).
use Prim.Native.Nat.{ℕ, zero, suc, ◌-◌, ◌*◌, ◌/◌, ◌^◌}
use opencode_beacon.Prelude.Tests.{leb, if◌then◌else◌}

pub data ℤ : Type 0 where
  pos negsuc : ℕ → ℤ

-- `-n`
abbrev pub neg : ℕ → ℤ
neg zero = pos zero
neg (suc n) = negsuc n

-- `a - b`
infixl 6 ◌⊖◌
unfoldable pub ◌⊖◌ : ℕ → ℕ → ℤ
a ⊖ b = if leb b a then pos (a - b) else neg (b - a)

-- Operations by absolute values: they act on the size and keep the sign. `on_size up down` takes
-- `up` for the size of a number that is not negative, `down` for the size of a negative one.
abbrev pub on_size : (ℕ → ℕ) → (ℕ → ℕ) → ℤ → ℤ
on_size up down (pos n) = pos (up n)
on_size up down (negsuc n) = neg (down (suc n))

abbrev pub min : ℕ → ℕ → ℕ
min a b = if leb a b then a else b

-- The values of a signed word of w bits, nearest to an integer.
unfoldable pub clamp : ℕ → ℤ → ℤ
clamp w = on_size (λ n. min n (2 ^ (w - 1) - 1)) (λ n. min n (2 ^ (w - 1)))

-- `saturating_mul` by a number that is not negative, in a signed word of w bits
unfoldable pub saturating_mul : ℕ → ℤ → ℕ → ℤ
unfolding clamp
saturating_mul w x k = clamp w (on_size (λ n. n * k) (λ n. n * k) x)

-- `/`, which rounds toward zero
unfoldable pub div_toward_zero : ℤ → ℕ → ℤ
div_toward_zero x d = on_size (λ n. n / d) (λ n. n / d) x
