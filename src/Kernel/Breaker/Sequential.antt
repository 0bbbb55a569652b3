-- ===== src/Kernel/Breaker/Sequential.antt =====
-- circuit-breaker.ts, where each call of `execute` ends before the next begins.
use ethixweb_ai_csr.Common.{
  ℕ, ◌+◌, ◌≤◌, ◌<◌, ◌≡◌, refl, ap, ◌≢◌, ◌⊎◌, Bool, true, false, List, [], ◌∷◌, ◌++◌, some, none,
  arith, length, is_some, or_default, leb, if◌then◌else◌,
}
use ethixweb_ai_csr.Kernel.Breaker.{
  CircuitBreaker, closed, opened, half_open, threshold, reset_timeout,
  maybe_transition_to_half_open, begin_call, settle_call, execute, default_failure_threshold,
  circuit_open_error, ran,
}

pub record IsValid (b : CircuitBreaker) : Type 0 where
  pub closed_below :
      b.state ≡ closed → (b.consecutive_failures ≡ 0) ⊎ (b.consecutive_failures < threshold b)
  pub closed_never_opened : b.state ≡ closed → b.opened_at ≡ none
  pub tripped_above : b.state ≢ closed → threshold b ≤ b.consecutive_failures
  pub tripped_since : b.state ≢ closed → is_some b.opened_at ≡ true
  pub trial_half_open : b.half_open_trial_in_flight ≡ true → b.state ≡ half_open

pub begin_call-IsValid : (b : CircuitBreaker) (now : ℕ) → IsValid b → IsValid (begin_call b now).0
unfolding begin_call
begin_call-IsValid b now v = ground arith

pub settle_call-IsValid :
    (b : CircuitBreaker) (resolved : Bool) (now : ℕ)
    → IsValid b
    → IsValid (settle_call b resolved now)
unfolding settle_call
settle_call-IsValid b resolved now v = ground arith

pub wake-IsValid :
    (b : CircuitBreaker) (now : ℕ) → IsValid b → IsValid (maybe_transition_to_half_open b now)
unfolding maybe_transition_to_half_open
wake-IsValid b now v = ground arith

-- Failing calls one after the other, each with the times at which it begins and ends.
pub run_failures : CircuitBreaker → List (ℕ × ℕ) → CircuitBreaker
run_failures b [] = b
run_failures b ((now, later) ∷ ts) = run_failures (execute b now false later).0 ts

execute_fails_below :
    (b : CircuitBreaker) (now later : ℕ)
    → b.state ≡ closed
    → b.consecutive_failures + 1 < threshold b
    → ((execute b now false later).0.state ≡ closed)
      × ((execute b now false later).0.consecutive_failures ≡ b.consecutive_failures + 1)
      × ((execute b now false later).0.options ≡ b.options)
unfolding execute
execute_fails_below b now later c h = ground arith

execute_fails_at :
    (b : CircuitBreaker) (now later : ℕ)
    → b.state ≡ closed
    → threshold b ≤ b.consecutive_failures + 1
    → ((execute b now false later).0.state ≡ opened)
      × ((execute b now false later).0.opened_at ≡ some later)
unfolding execute
execute_fails_at b now later c h = ground arith

run_failures_below :
    (b : CircuitBreaker) (ts : List (ℕ × ℕ))
    → b.state ≡ closed
    → b.consecutive_failures + length ts < threshold b
    → ((run_failures b ts).state ≡ closed)
      × ((run_failures b ts).consecutive_failures ≡ b.consecutive_failures + length ts)
unfolding run_failures
run_failures_below b [] c h = (c, omega arith)
run_failures_below b ((now, later) ∷ ts) c h = ground (
  arith,
  execute_fails_below b now later c (omega arith),
  run_failures_below (execute b now false later).0 ts,
)

run_failures-append :
    (b : CircuitBreaker) (ts us : List (ℕ × ℕ))
    → run_failures b (ts ++ us) ≡ run_failures (run_failures b ts) us
unfolding run_failures
run_failures-append b [] us = refl
run_failures-append b ((now, later) ∷ ts) us =
    run_failures-append (execute b now false later).0 ts us

run_failures-options :
    (b : CircuitBreaker) (ts : List (ℕ × ℕ))
    → b.state ≡ closed
    → b.consecutive_failures + length ts < threshold b
    → (run_failures b ts).options ≡ b.options
unfolding run_failures
run_failures-options b [] c h = refl
run_failures-options b ((now, later) ∷ ts) c h = ground (
  arith,
  execute_fails_below b now later c (omega arith),
  run_failures-options (execute b now false later).0 ts,
)

-- A closed breaker with `n` failures behind it stays closed through any failing calls that leave
-- the count below the threshold, and the failing call that reaches the threshold opens it, as of
-- the moment at which that call ended.
pub run_failures_trip :
    (b : CircuitBreaker) (ts : List (ℕ × ℕ)) (now later : ℕ)
    → b.state ≡ closed
    → b.consecutive_failures + length ts + 1 ≡ threshold b
    → ((run_failures b ts).state ≡ closed)
      × ((run_failures b (ts ++ (now, later) ∷ [])).state ≡ opened)
      × ((run_failures b (ts ++ (now, later) ∷ [])).opened_at ≡ some later)
run_failures_trip b ts now later c h =
    let (still, counted) = run_failures_below b ts c (omega arith) in
    let same =
      ap (λ o. or_default o.failure_threshold default_failure_threshold)
        (run_failures-options b ts c (omega arith)) in
    let (trips, since) = execute_fails_at (run_failures b ts) now later still (omega arith) in
    rw (run_failures-append b ts ((now, later) ∷ [])) (unfold run_failures in (still, trips, since))

-- `execute` on an open breaker: before the reset timeout has passed since it opened, the operation is
-- not run, the caller gets `CircuitOpenError` and nothing changes; after it the operation runs, a
-- success closes the breaker and clears its count, and a failure opens it again as of the moment at
-- which the operation ended, with one more failure.
pub execute_opened :
    (b : CircuitBreaker) (since now later : ℕ) (resolved : Bool)
    → b.state ≡ opened
    → b.opened_at ≡ some since
    → execute b now resolved later ≡ (
        if leb (since + reset_timeout b) now
        then (
          (if resolved
              then record b {
                state = closed;
                consecutive_failures = 0;
                opened_at = none;
                half_open_trial_in_flight = false;
              }
              else record b {
                state = opened;
                consecutive_failures = b.consecutive_failures + 1;
                opened_at = some later;
                half_open_trial_in_flight = false;
              }),
          ran resolved,
        )
        else (b, circuit_open_error b.key))
unfolding execute
execute_opened b since now later resolved o s = ground arith

-- `execute` with no other call in between keeps the breaker well formed, whatever the operation does.
pub execute-IsValid :
    (b : CircuitBreaker) (now later : ℕ) (resolved : Bool)
    → IsValid b
    → IsValid (execute b now resolved later).0
unfolding execute
execute-IsValid b now later resolved v = ground arith
