-- ===== src/Kernel/Breaker.antt =====
-- packages/shared-kernel/src/retry/circuit-breaker.ts
pub mod Sequential
pub mod Interleaving
pub mod Registry
use ethixweb_ai_csr.Common.{
  ℕ, ◌+◌, Bool, true, false, List, Option, none, some, String, leb, if◌then◌else◌, or_default,
  lookup, insert,
}

-- `opened` is the source's "open".
pub data CircuitState : Type 0 where
  closed opened half_open : CircuitState

pub record CircuitBreakerOptions : Type 0 where
  pub failure_threshold : Option ℕ
  pub reset_timeout_ms : Option ℕ

abbrev pub default_failure_threshold : ℕ
default_failure_threshold = 5

abbrev pub default_reset_timeout_ms : ℕ
default_reset_timeout_ms = 30000

pub record CircuitBreaker : Type 0 where
  pub key : String
  pub options : CircuitBreakerOptions
  pub state : CircuitState
  pub consecutive_failures : ℕ
  pub opened_at : Option ℕ
  pub half_open_trial_in_flight : Bool

-- `new CircuitBreaker(key, options)`
unfoldable pub new : String → CircuitBreakerOptions → CircuitBreaker
new key options = record {
  key = key;
  options = options;
  state = closed;
  consecutive_failures = 0;
  opened_at = none;
  half_open_trial_in_flight = false;
}

abbrev pub threshold : CircuitBreaker → ℕ
threshold b = or_default b.options.failure_threshold default_failure_threshold

abbrev pub reset_timeout : CircuitBreaker → ℕ
reset_timeout b = or_default b.options.reset_timeout_ms default_reset_timeout_ms

-- `now - opened_at >= reset` without the subtraction, so a clock that steps back is read exactly.
wake : CircuitBreaker → CircuitState → Option ℕ → ℕ → CircuitBreaker
wake b opened (some since) now =
    if leb (since + reset_timeout b) now
    then record b { state = half_open; half_open_trial_in_flight = false }
    else b
wake b _ _ now = b

unfoldable pub maybe_transition_to_half_open : CircuitBreaker → ℕ → CircuitBreaker
unfolding wake
maybe_transition_to_half_open b now = wake b b.state b.opened_at now

unfoldable pub get_state : CircuitBreaker → ℕ → CircuitBreaker × CircuitState
unfolding maybe_transition_to_half_open
get_state b now = let b' = maybe_transition_to_half_open b now in (b', b'.state)

unfoldable pub on_success : CircuitBreaker → CircuitBreaker
on_success b = record b { consecutive_failures = 0; state = closed; opened_at = none }

unfoldable pub open_circuit : CircuitBreaker → ℕ → CircuitBreaker
open_circuit b now = record b { state = opened; opened_at = some now }

-- `onFailure` behind its increment.
after_failure : CircuitBreaker → CircuitState → ℕ → CircuitBreaker
unfolding open_circuit
after_failure b half_open now = open_circuit b now
after_failure b _ now = if leb (threshold b) b.consecutive_failures then open_circuit b now else b

unfoldable pub on_failure : CircuitBreaker → ℕ → CircuitBreaker
unfolding after_failure
on_failure b now =
    after_failure (record b { consecutive_failures = b.consecutive_failures + 1 }) b.state now

-- What `execute` does before its `await`: a plain call, the half-open trial, or `CircuitOpenError`.
pub data Admission : Type 0 where
  plain trial refused : Admission

admit : CircuitBreaker → CircuitState → CircuitBreaker × Admission
admit b closed = (b, plain)
admit b opened = (b, refused)
admit b half_open =
    if b.half_open_trial_in_flight
    then (b, refused)
    else (record b { half_open_trial_in_flight = true }, trial)

unfoldable pub begin_call : CircuitBreaker → ℕ → CircuitBreaker × Admission
unfolding admit maybe_transition_to_half_open
begin_call b now = let b' = maybe_transition_to_half_open b now in admit b' b'.state

-- What `execute` does after its `await`, by whether the operation resolved; `finally` comes last.
unfoldable pub settle_call : CircuitBreaker → Bool → ℕ → CircuitBreaker
unfolding on_success on_failure
settle_call b resolved now =
    let b' = if resolved then on_success b else on_failure b now in
    record b' { half_open_trial_in_flight = false }

-- `execute` with no other call in between: the operation is given by how it ends, and when.
pub data Execution : Type 0 where
  circuit_open_error : String → Execution
  ran : Bool → Execution

conclude : Bool → ℕ → CircuitBreaker × Admission → CircuitBreaker × Execution
unfolding settle_call
conclude resolved later (b, refused) = (b, circuit_open_error b.key)
conclude resolved later (b, plain) = (settle_call b resolved later, ran resolved)
conclude resolved later (b, trial) = (settle_call b resolved later, ran resolved)

unfoldable pub execute : CircuitBreaker → ℕ → Bool → ℕ → CircuitBreaker × Execution
unfolding conclude begin_call
execute b now resolved later = conclude resolved later (begin_call b now)

-- `CircuitBreakerRegistry`
pub record CircuitBreakerRegistry : Type 0 where
  pub default_options : CircuitBreakerOptions
  pub breakers : List (String × CircuitBreaker)

get_or_new :
    CircuitBreakerRegistry
    → String
    → Option CircuitBreakerOptions
    → Option CircuitBreaker
    → CircuitBreakerRegistry × CircuitBreaker
get_or_new r key options (some existing) = (r, existing)
get_or_new r key options none =
    let breaker = new key (or_default options r.default_options) in
    (record r { breakers = insert key breaker r.breakers }, breaker)

unfoldable pub get_or_create :
    CircuitBreakerRegistry
    → String
    → Option CircuitBreakerOptions
    → CircuitBreakerRegistry × CircuitBreaker
unfolding get_or_new
get_or_create r key options = get_or_new r key options (lookup key r.breakers)
