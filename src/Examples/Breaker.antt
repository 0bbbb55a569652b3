-- ===== src/Examples/Breaker.antt =====
-- circuit-breaker.ts on a breaker of three failures and ten milliseconds.
use ethixweb_ai_csr.Common.{◌≡◌, ◌≤◌, refl, true, false, [], ◌∷◌, none, some, lookup, inl, arith}
use ethixweb_ai_csr.Kernel.Breaker.{
  CircuitBreakerOptions, CircuitBreaker, CircuitBreakerRegistry, opened, closed, half_open,
  begin_call,
}
use ethixweb_ai_csr.Kernel.Breaker.Sequential.{IsValid, run_failures, run_failures_trip}
use ethixweb_ai_csr.Kernel.Breaker.Interleaving.{
  System, begins, plain_settles, run, trials-le-one, second_trial, IsSingle, AlwaysCalm, step,
}

abbrev three_options : CircuitBreakerOptions
three_options = record { failure_threshold = some 3; reset_timeout_ms = some 10 }

abbrev fresh : CircuitBreaker
fresh = record {
  key = "llm";
  options = three_options;
  state = closed;
  consecutive_failures = 0;
  opened_at = none;
  half_open_trial_in_flight = false;
}

abbrev tripped : CircuitBreaker
tripped = record fresh { state = opened; consecutive_failures = 3; opened_at = some 5 }

abbrev probing : CircuitBreaker
probing = record tripped { state = half_open; half_open_trial_in_flight = true }

fresh-IsValid : IsValid fresh
fresh-IsValid = record {
  closed_below = λ _. inl refl;
  closed_never_opened = λ _. refl;
  tripped_above = λ h. absurd (h refl);
  tripped_since = λ h. absurd (h refl);
  trial_half_open = λ h. absurd (ground arith);
}

run_failures_trip_example :
    ((run_failures fresh ((1, 2) ∷ (2, 3) ∷ [])).state ≡ closed)
    × ((run_failures fresh ((1, 2) ∷ (2, 3) ∷ (4, 5) ∷ [])).state ≡ opened)
    × ((run_failures fresh ((1, 2) ∷ (2, 3) ∷ (4, 5) ∷ [])).opened_at ≡ some 5)
run_failures_trip_example = run_failures_trip fresh ((1, 2) ∷ (2, 3) ∷ []) 4 5 refl refl

abbrev idle : System
idle = record { breaker = fresh; plains = 0; trials = 0 }

-- A breaker whose trial waits, with one call left over from before it opened.
abbrev left_over : System
left_over = record { breaker = probing; plains = 1; trials = 1 }

abbrev waiting_trial : System
waiting_trial = record { breaker = tripped; plains = 0; trials = 0 }

waiting_trial-IsSingle : IsSingle waiting_trial
waiting_trial-IsSingle = record { none_or_flagged = inl refl }

waiting_trial-AlwaysCalm : AlwaysCalm waiting_trial (begins 15 ∷ begins 16 ∷ [])
unfolding step begin_call
waiting_trial-AlwaysCalm = ((λ _. refl), ((λ _. refl), (λ _. refl)))

trials-le-one_example : (run waiting_trial (begins 15 ∷ begins 16 ∷ [])).trials ≤ 1
trials-le-one_example =
    trials-le-one waiting_trial (begins 15 ∷ begins 16 ∷ []) waiting_trial-IsSingle
      waiting_trial-AlwaysCalm

second_trial_example : (run left_over (plain_settles false 20 ∷ begins 30 ∷ [])).trials ≡ 2
second_trial_example = second_trial left_over 20 30 refl refl refl (omega arith)

abbrev registry : CircuitBreakerRegistry
registry = record { default_options = three_options; breakers = ("llm", fresh) ∷ [] }

registry_absent : lookup "stt" registry.breakers ≡ none
unfolding lookup
registry_absent = refl
