-- ===== src/Examples/Retry.antt =====
-- retry-policy.ts on an operation that fails twice and then succeeds.
use ethixweb_ai_csr.Common.{ℕ, ◌≡◌, ◌≤◌, ◌*◌, ◌+◌, refl, none, some, ltb, if◌then◌else◌, arith}
use ethixweb_ai_csr.Kernel.Retry.{
  Fraction, RetryPolicyOptions, Attempt, resolved, rejected, returned, exponential,
  compute_backoff_delay, with_retry, retry_loop, attempt_round,
}
use ethixweb_ai_csr.Kernel.Retry.Attempts.{Ends, with_retry-Ends}
use ethixweb_ai_csr.Kernel.Retry.Delays.{compute_backoff_delay_bounds}

abbrev four_attempts : RetryPolicyOptions ℕ
four_attempts = record {
  max_attempts = some 4;
  base_delay_ms = some 100;
  max_delay_ms = none;
  jitter_ratio = none;
  is_retryable = none;
}

abbrev third_time : ℕ → Attempt ℕ ℕ
third_time n = if ltb n 3 then rejected n else resolved n

abbrev half : Fraction
half = record { num = 1; den = 2 }

abbrev fifth : Fraction
fifth = record { num = 1; den = 5 }

with_retry-Ends_example :
    (k : ℕ) × Ends four_attempts third_time 1 k (with_retry four_attempts third_time (λ _. half))
with_retry-Ends_example = with_retry-Ends four_attempts third_time (λ _. half) (omega arith)

with_retry_test : (with_retry four_attempts third_time (λ _. half)).outcome ≡ returned 3
unfolding with_retry retry_loop attempt_round
with_retry_test = refl

with_retry_delays_test : (with_retry four_attempts third_time (λ _. half)).calls ≡ 3
unfolding with_retry retry_loop attempt_round
with_retry_delays_test = refl

compute_backoff_delay_bounds_example :
    (2 * (exponential 3 100 5000 * 5)
      ≤ 2 * (compute_backoff_delay 3 100 5000 fifth half * 5)
        + 2 * (exponential 3 100 5000 * 1)
        + 5)
    × (2 * (compute_backoff_delay 3 100 5000 fifth half * 5)
        ≤ 2 * (exponential 3 100 5000 * 5) + 2 * (exponential 3 100 5000 * 1) + 5)
compute_backoff_delay_bounds_example =
    compute_backoff_delay_bounds 3 100 5000 fifth half (omega arith) (omega arith) (omega arith)

compute_backoff_delay_test : compute_backoff_delay 3 100 5000 fifth half ≡ 400
unfolding compute_backoff_delay exponential
compute_backoff_delay_test = refl
