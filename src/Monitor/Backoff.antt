-- ===== src/Monitor/Backoff.antt =====
-- The least delay before a server may be connected again, `reconnect_delay` (src/monitor.rs), in
-- milliseconds. The random factor of the fastrand crate, 800 to 1200, is an argument.
use native.Mathlib.Nat.{mul-le-mul, mul-le-mul_right, one-le-pow, pow-le-pow_right}
use opencode_beacon.Prelude.{ℕ, ◌*◌, ◌/◌, ◌^◌, ◌≤◌, ◌≡◌, refl, arith}
use opencode_beacon.Prelude.Integers.{min}
use opencode_beacon.Prelude.Chars.{u64_max}

unfoldable pub base_millis : ℕ → ℕ
base_millis attempt = min (1000 * 2 ^ min attempt 5) 30000

unfoldable pub reconnect_delay : ℕ → ℕ → ℕ
unfolding base_millis
reconnect_delay attempt jitter = min (base_millis attempt * jitter) u64_max / 1000

base-low : (attempt : ℕ) → 1000 ≤ base_millis attempt
unfolding base_millis
base-low attempt = ground (arith, one-le-pow (min attempt 5) 2 (omega arith))

base-high : (attempt : ℕ) → base_millis attempt ≤ 30000
unfolding base_millis
base-high attempt = ground arith

base-grows : (a b : ℕ) → a ≤ b → base_millis a ≤ base_millis b
unfolding base_millis
base-grows a b h =
    let exponents : min a 5 ≤ min b 5 = ground (arith, h) in
    let powers = pow-le-pow_right {n = 2} (omega arith) exponents in ground (arith, powers)

-- The quotient of a product that may saturate.
saturated-between :
    (n : ℕ)
    → 800000 ≤ n
    → n ≤ 36000000
    → (800 ≤ min n u64_max / 1000) × (min n u64_max / 1000 ≤ 36000)
saturated-between n low high =
    let kept : min n u64_max ≡ n = ground (arith, high) in
    (omega (arith, kept, low), omega (arith, kept, high))

saturated-grows : (m n : ℕ) → m ≤ n → min m u64_max / 1000 ≤ min n u64_max / 1000
saturated-grows m n h =
    let kept : min m u64_max ≤ min n u64_max = ground (arith, h) in omega (arith, kept)

delay-product :
    (attempt jitter : ℕ)
    → reconnect_delay attempt jitter ≡ min (base_millis attempt * jitter) u64_max / 1000
unfolding reconnect_delay
delay-product attempt jitter = refl

-- With a factor from 800 to 1200, the delay before another attempt is from 0.8 to 36 seconds,
-- however often the connection has failed.
pub reconnect_delay_bounded :
    (attempt jitter : ℕ)
    → 800 ≤ jitter
    → jitter ≤ 1200
    → (800 ≤ reconnect_delay attempt jitter) × (reconnect_delay attempt jitter ≤ 36000)
reconnect_delay_bounded attempt jitter low high =
    let floor = mul-le-mul (base-low attempt) low in
    let ceiling = mul-le-mul (base-high attempt) high in
    rw (delay-product attempt jitter) (
      saturated-between (base_millis attempt * jitter) (omega (arith, floor))
        (omega (arith, ceiling)))

-- With the same factor, a later attempt never waits less than an earlier one.
reconnect_delay_grows :
    (a b jitter : ℕ) → a ≤ b → reconnect_delay a jitter ≤ reconnect_delay b jitter
reconnect_delay_grows a b jitter h =
    rw (delay-product a jitter, delay-product b jitter)
      (saturated-grows (base_millis a * jitter) (base_millis b * jitter)
        (mul-le-mul_right jitter (base-grows a b h)))
