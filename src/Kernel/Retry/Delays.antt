-- ===== src/Kernel/Retry/Delays.antt =====
-- The delays between the attempts of `withRetry`.
use native.Mathlib.Nat.{
  mul-div-le, lt-mul-div-succ, le_of_lt, mul-le-mul_right, le_of_mul-le-mul_left, mul-le-mul_left,
  mul-pos, lt_of_mul-lt-mul_left,
}
use ethixweb_ai_csr.Common.{ℕ, ◌+◌, ◌-◌, ◌*◌, ◌/◌, ◌≤◌, ◌<◌, ◌≡◌, ap, arith}
use ethixweb_ai_csr.Kernel.Retry.{Fraction, exponential, compute_backoff_delay}

-- The same with the products as given numbers: `x` and `y` are the exponential delay times the
-- denominator and the numerator of the ratio, `u` is the common denominator.
scaled_bounds :
    (x y jd rn rd d : ℕ)
    → y ≤ x
    → rn < rd
    → d ≡ (2 * x * rd + 4 * y * rn + jd * rd - 2 * y * rd) / (2 * (jd * rd))
    → 0 < jd
    → (2 * x ≤ 2 * (d * jd) + 2 * y + jd) × (2 * (d * jd) ≤ 2 * x + 2 * y + jd)
scaled_bounds x y jd rn rd d yx rr e p =
    let u : 0 < jd * rd = mul-pos p (omega arith) in
    let n = 2 * x * rd + 4 * y * rn + jd * rd - 2 * y * rd in
    let below = mul-div-le n (2 * (jd * rd)) in
    let above = lt-mul-div-succ n {b = 2 * (jd * rd)} (omega arith) in
    let yr = mul-le-mul_left y (le_of_lt rr) in
    let yx' = mul-le-mul_right rd yx in
    (
      (let low =
            lt_of_mul-lt-mul_left rd {m = 2 * x + jd} {n = 2 * (d * jd) + 2 * jd + 2 * y}
              (rw e (omega (arith, above, yr, yx'))) in
          omega (arith, low)),
      le_of_mul-le-mul_left {k = rd} (rw e (omega (arith, below, yr))) (omega arith),
    )

-- Every delay lies within the jitter ratio of the exponential delay, up to the rounding by a half.
pub compute_backoff_delay_bounds :
    (attempt base_delay max_delay : ℕ) (ratio random : Fraction)
    → ratio.num ≤ ratio.den
    → 0 < ratio.den
    → random.num < random.den
    → let e = exponential attempt base_delay max_delay in
      let d = compute_backoff_delay attempt base_delay max_delay ratio random in
      (2 * (e * ratio.den) ≤ 2 * (d * ratio.den) + 2 * (e * ratio.num) + ratio.den)
      × (2 * (d * ratio.den) ≤ 2 * (e * ratio.den) + 2 * (e * ratio.num) + ratio.den)
unfolding compute_backoff_delay
compute_backoff_delay_bounds attempt base_delay max_delay ratio random r p q =
    let e = exponential attempt base_delay max_delay in
    scaled_bounds (e * ratio.den) (e * ratio.num) ratio.den random.num random.den
      (compute_backoff_delay attempt base_delay max_delay ratio random) (mul-le-mul_left e r) q
      (ap (λ (n : ℕ). n / (2 * (ratio.den * random.den))) (omega arith)) p
