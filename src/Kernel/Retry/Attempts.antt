-- ===== src/Kernel/Retry/Attempts.antt =====
-- Which calls `withRetry` makes, and how it ends.
use ethixweb_ai_csr.Common.{
  ℕ, zero, suc, ◌+◌, ◌-◌, ◌≤◌, ◌<◌, ◌≡◌, refl, subst, true, [], some, arith, length, if◌then◌else◌,
  ◌⊎◌, inl, inr, Bool-cases, ap, ℕ_discrete,
}
use ethixweb_ai_csr.Kernel.Retry.{
  Fraction, RetryPolicyOptions, Attempt, resolved, rejected, Outcome, returned, threw, exhausted,
  Retried, attempts_of, retryable, attempt_round, retry_loop, with_retry,
}

module _ {A E : Type 0} (o : RetryPolicyOptions E) (operation : ℕ → Attempt A E) where
  -- How the loop ends if attempt `k` is its last.
  abbrev pub verdict : ℕ → Attempt A E → Outcome A E
  verdict k (resolved a) = returned a
  verdict k (rejected e) = if retryable o e then exhausted k (some e) else threw e

  -- Attempt `j` failed in a way that is worth another try.
  abbrev pub FailsRetryably : ℕ → Type 0
  FailsRetryably j = (e : E) × (operation j ≡ rejected e) × (retryable o e ≡ true)

  -- Attempt `k` is the last one: all before it failed retryably, the loop made no more calls, one
  -- `onRetry` for each call but the last, and ended as `k` did; and `k` was not to be tried again.
  pub record Ends (from k : ℕ) (r : Retried A E) : Type 0 where
    pub within : (from ≤ k) × (k ≤ attempts_of o)
    pub earlier : (j : ℕ) → from ≤ j → j < k → FailsRetryably j
    pub calls_made : r.calls + from ≡ suc k
    pub retries_made : suc (length r.retries) ≡ r.calls
    pub as_last : r.outcome ≡ verdict k (operation k)
    pub final : FailsRetryably k → k ≡ attempts_of o

  round_stops :
      (from delay : ℕ) (x : Attempt A E) (rest : Retried A E)
      → ((e : E) → x ≡ rejected e → retryable o e ≡ true → from ≡ attempts_of o)
      → ((attempt_round o from delay x rest).calls ≡ 1)
        × ((attempt_round o from delay x rest).retries ≡ [])
        × ((attempt_round o from delay x rest).outcome ≡ verdict from x)
  unfolding attempt_round
  round_stops from delay (resolved a) rest last = (refl, refl, refl)
  round_stops from delay (rejected e) rest last = ground (arith, last e refl)

  -- A round that does not go on is the last.
  round-Ends_here :
      (from delay : ℕ) (rest : Retried A E)
      → from ≤ attempts_of o
      → (FailsRetryably from → from ≡ attempts_of o)
      → Ends from from (attempt_round o from delay (operation from) rest)
  round-Ends_here from delay rest le last =
      let (calls, retries, outcome) =
        round_stops from delay (operation from) rest (λ e p q. last (e, p, q)) in
      record {
        within = (omega arith, le);
        earlier = λ j a b. absurd (omega arith);
        calls_made = omega arith;
        retries_made = omega (arith, ap length retries);
        as_last = outcome;
        final = last;
      }

  -- A round that goes on adds its call to those of the later rounds.
  round-Ends_later :
      (from delay k : ℕ) (rest : Retried A E)
      → from < attempts_of o
      → FailsRetryably from
      → Ends (suc from) k rest
      → Ends from k (attempt_round o from delay (operation from) rest)
  unfolding attempt_round
  round-Ends_later from delay k rest lt (e, failed, again) r = record {
    within = (omega (arith, r.within), r.within.1);
    earlier = λ j a b. elim (ℕ_discrete j from) [
      | yes p ↦ rw p (e, failed, again)
      | no p ↦ r.earlier j (omega arith) b
    ];
    calls_made = ground (arith, r.calls_made);
    retries_made = ground (arith, r.retries_made);
    as_last = ground (arith, r.as_last);
    final = r.final;
  }

  attempt_cases :
      (x : Attempt A E)
      → ((e : E) × (x ≡ rejected e) × (retryable o e ≡ true))
        ⊎ ¬ ((e : E) × (x ≡ rejected e) × (retryable o e ≡ true))
  attempt_cases (resolved a) = inr (λ f. cc f.1)
  attempt_cases (rejected e) = elim (Bool-cases (retryable o e)) [
    | inl again ↦ inl (e, refl, again)
    | inr never ↦ inr (λ f. ground (arith, f.1, f.2))
  ]

  FailsRetryably-cases : (j : ℕ) → FailsRetryably j ⊎ ¬ FailsRetryably j
  FailsRetryably-cases j = attempt_cases (operation j)

  retry_loop-Ends :
      (random : ℕ → Fraction) (left from : ℕ)
      → from + suc left ≡ suc (attempts_of o)
      → (k : ℕ) × Ends from k (retry_loop o operation random (suc left) from)
  unfolding retry_loop
  retry_loop-Ends random zero from h =
      (from, round-Ends_here from _ _ (omega arith) (λ _. omega arith))
  retry_loop-Ends random (suc left) from h = elim (FailsRetryably-cases from) [
    | inl again ↦
        let (k, r) = retry_loop-Ends random left (suc from) (omega arith) in
        (k, round-Ends_later from _ k _ (omega arith) again r)
    | inr last ↦ (from, round-Ends_here from _ _ (omega arith) (λ f. absurd (last f)))
  ]

  with_retry_loops :
      (random : ℕ → Fraction) (left : ℕ)
      → attempts_of o ≡ suc left
      → retry_loop o operation random (suc left) 1 ≡ with_retry o operation random
  unfolding with_retry
  with_retry_loops random left e = rw (← e) (ground arith)

  -- With at least one attempt allowed, `withRetry` ends with the first attempt that resolves, fails
  -- for good or is the last allowed: it made no call after that one, one `onRetry` for each call
  -- before it, and its result is that of the attempt (`RetryExhaustedError` with the last error if it
  -- could have been retried). It never reaches the throw behind its loop.
  pub with_retry-Ends :
      (random : ℕ → Fraction)
      → 0 < attempts_of o
      → (k : ℕ) × Ends 1 k (with_retry o operation random)
  with_retry-Ends random h =
      let (k, r) = retry_loop-Ends random (attempts_of o - 1) 1 (omega arith) in
      (k, subst (Ends 1 k) (with_retry_loops random (attempts_of o - 1) (omega arith)) r)
