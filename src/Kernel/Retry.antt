-- ===== src/Kernel/Retry.antt =====
-- packages/shared-kernel/src/retry/retry-policy.ts
-- The operation and the random draws are functions of the number of the attempt. A ratio and a
-- draw are exact fractions, a numerator over a denominator; the sleeps take no part.
pub mod Attempts
pub mod Delays
use ethixweb_ai_csr.Common.{
  ℕ, zero, suc, ◌+◌, ◌-◌, ◌*◌, ◌/◌, ◌^◌, min, Bool, true, not, List, [], ◌∷◌, Option, none, some,
  ltb, ◌==◌, if◌then◌else◌, or_default,
}

pub record Fraction : Type 0 where
  pub num : ℕ
  pub den : ℕ

pub record RetryPolicyOptions (E : Type 0) : Type 0 where
  pub max_attempts : Option ℕ
  pub base_delay_ms : Option ℕ
  pub max_delay_ms : Option ℕ
  pub jitter_ratio : Option Fraction
  pub is_retryable : Option (E → Bool)

abbrev pub default_max_attempts : ℕ
default_max_attempts = 6

abbrev pub default_base_delay_ms : ℕ
default_base_delay_ms = 1000

abbrev pub default_max_delay_ms : ℕ
default_max_delay_ms = 64000

abbrev pub default_jitter_ratio : Fraction
default_jitter_ratio = record { num = 1; den = 5 }

-- How one call of the operation ends.
pub data Attempt (A E : Type 0) : Type 0 where
  resolved : A → Attempt A E
  rejected : E → Attempt A E

-- What `withRetry` returns or throws; the last error of the final, unreachable throw is undefined.
pub data Outcome (A E : Type 0) : Type 0 where
  returned : A → Outcome A E
  threw : E → Outcome A E
  exhausted : ℕ → Option E → Outcome A E
  range_error : ℕ → Outcome A E

-- With the calls of the operation that were made, and the arguments of each `onRetry`.
pub record Retried (A E : Type 0) : Type 0 where
  pub outcome : Outcome A E
  pub calls : ℕ
  pub retries : List (ℕ × ℕ)

unfoldable pub exponential : ℕ → ℕ → ℕ → ℕ
exponential attempt base_delay max_delay = min (base_delay * 2 ^ (attempt - 1)) max_delay

-- `max(0, round(e + e * ratio * (2 * random - 1)))` over the common denominator; the subtraction
-- that stops at 0 is the `max`, and the half added before the floor is the rounding.
unfoldable pub compute_backoff_delay : ℕ → ℕ → ℕ → Fraction → Fraction → ℕ
compute_backoff_delay attempt base_delay max_delay ratio random =
    let e = exponential attempt base_delay max_delay in
    let unit = ratio.den * random.den in
    (2 * e * unit + 4 * e * (ratio.num * random.num) + unit - 2 * e * (ratio.num * random.den))
    / (2 * unit)

module _ {E : Type 0} where
  abbrev pub attempts_of : RetryPolicyOptions E → ℕ
  attempts_of o = or_default o.max_attempts default_max_attempts

  abbrev pub retryable : RetryPolicyOptions E → E → Bool
  retryable o = or_default o.is_retryable (λ _. true)

  abbrev pub delay_of : RetryPolicyOptions E → ℕ → Fraction → ℕ
  delay_of o attempt random =
      compute_backoff_delay attempt (or_default o.base_delay_ms default_base_delay_ms)
        (or_default o.max_delay_ms default_max_delay_ms)
        (or_default o.jitter_ratio default_jitter_ratio) random

module _ {A E : Type 0} where
  stop : Outcome A E → Retried A E
  stop outcome = record { outcome = outcome; calls = 1; retries = [] }

  -- One round of the loop; `rest` is what the later rounds do.
  unfoldable pub attempt_round :
      RetryPolicyOptions E → ℕ → ℕ → Attempt A E → Retried A E → Retried A E
  unfolding stop
  attempt_round o attempt delay (resolved a) rest = stop (returned a)
  attempt_round o attempt delay (rejected e) rest =
      if not (retryable o e)
      then stop (threw e)
      else if attempt == attempts_of o
      then stop (exhausted attempt (some e))
      else record {
        outcome = rest.outcome;
        calls = suc rest.calls;
        retries = (attempt, delay) ∷ rest.retries;
      }

  -- The loop, from an attempt on, with the rounds that are left.
  unfoldable pub retry_loop :
      RetryPolicyOptions E → (ℕ → Attempt A E) → (ℕ → Fraction) → ℕ → ℕ → Retried A E
  retry_loop o operation random zero attempt = record {
    outcome = exhausted (attempts_of o) none;
    calls = 0;
    retries = [];
  }
  retry_loop o operation random (suc left) attempt =
      let rest = retry_loop o operation random left (suc attempt) in
      attempt_round o attempt (delay_of o attempt (random attempt)) (operation attempt) rest

  unfoldable pub with_retry :
      RetryPolicyOptions E → (ℕ → Attempt A E) → (ℕ → Fraction) → Retried A E
  with_retry o operation random =
      if ltb (attempts_of o) 1
      then record { outcome = range_error (attempts_of o); calls = 0; retries = [] }
      else retry_loop o operation random (attempts_of o) 1
