-- ===== src/Auth/Login/Limit.antt =====
-- redis-rate-limiter.ts and login.use-case.ts: how often a password can be tried.
use text.Mathlib.TextLemmas.{append_cancel_left}
use ethixweb_ai_csr.Common.{
  ℕ, suc, ◌+◌, ◌*◌, ◌≤◌, ◌<◌, ◌≡◌, refl, sym, subst, ap, ◌∙◌, ◌⊎◌, inl, inr, Bool, true, false,
  ◌&&◌, Bool-cases, List, [], ◌∷◌, none, some, String, arith, eq_iff, str_eq, ltb, if◌then◌else◌,
  max, not,
}
use ethixweb_ai_csr.Auth.Login.{
  Counter, value, CounterRedis, RateLimitResult, allowed, retry_after_seconds, limit_key,
  increment_script, consume_attempt,
}

limit_key-str_eq : (j k : String) → str_eq (limit_key j) (limit_key k) ≡ str_eq j k
unfolding limit_key
limit_key-str_eq j k =
    ground
      (arith, eq_iff j k, eq_iff (limit_key j) (limit_key k), append_cancel_left "ratelimit:" j k)

unfoldable pub is_allowed : RateLimitResult → Bool
is_allowed allowed = true
is_allowed (retry_after_seconds n) = false

-- The counter is not there, or it counts and lasts until a time at least.
pub record Lasts (until : ℕ) (c : Counter) : Type 0 where
  pub counts : (c ≡ none) ⊎ ((n : ℕ) × (e : ℕ) × (c ≡ some (suc n, some e)) × (until ≤ e))

module _ (redis : CounterRedis) (max_attempts window_seconds : ℕ) where
  open redis use {State, counter}

  script_own :
      (key : String) (now t until : ℕ) (s : State)
      → Lasts until (counter key now s)
      → until ≤ now + window_seconds * 1000
      → now ≤ t
      → t < until
      → ((increment_script redis key window_seconds now s).1 ≡ suc (value (counter key now s)))
        × ((e : ℕ) × (counter key t (increment_script redis key window_seconds now s).0
              ≡ some (suc (value (counter key now s)), some e))
            × (until ≤ e))
  unfolding increment_script
  script_own key now t until s lasts window le lt =
      let s' = (redis.incr key now s).0 in
      let counted = redis.incr_counts key now s in
      let now_counter = redis.counter-incr key key now now s (omega arith) in
      let later = redis.counter-incr key key now t s le in
      let expired = redis.counter-expire key key window_seconds now t s' le in
      let self = eq_iff key key in
      elim lasts.counts [
        | inl absent ↦ (
          ground (arith, counted, absent),
          (
            now + window_seconds * 1000,
            ground (arith, counted, absent, now_counter, expired, self),
            window,
          ),
        )
        | inr (n, e, there, far) ↦ (
          ground (arith, counted, there),
          (e, ground (arith, counted, there, later, self, far), far),
        )
      ]

  script_other :
      (key other : String) (now t : ℕ) (s : State)
      → str_eq key other ≡ false
      → now ≤ t
      → counter other t (increment_script redis key window_seconds now s).0 ≡ counter other t s
  unfolding increment_script
  script_other key other now t s ne le = ground (
    arith,
    ne,
    redis.counter-incr key other now t s le,
    redis.counter-expire key other window_seconds now t (redis.incr key now s).0 le,
  )

  consume_attempt_lem :
      (key : String) (now : ℕ) (s : State)
      → ((consume_attempt redis key max_attempts window_seconds now s).0
          ≡ (increment_script redis (limit_key key) window_seconds now s).0)
        × (is_allowed (consume_attempt redis key max_attempts window_seconds now s).1
            ≡ not
                (ltb max_attempts (increment_script redis (limit_key key) window_seconds now s).1))
  unfolding consume_attempt is_allowed
  consume_attempt_lem key now s = (refl, ground arith)

  -- 1 for an attempt with the key that is allowed, and how often the key is allowed over a sequence of
  -- attempts, each with its time and key.
  unfoldable pub allows : String → ℕ × String → State → ℕ
  allows key (now, other) s =
      if str_eq other key
        && is_allowed (consume_attempt redis other max_attempts window_seconds now s).1
      then 1
      else 0

  unfoldable pub times_allowed : String → List (ℕ × String) → State → ℕ
  times_allowed key [] s = 0
  times_allowed key ((now, other) ∷ ops) s =
      allows key (now, other) s
      + times_allowed key ops (consume_attempt redis other max_attempts window_seconds now s).0

  -- The times do not step back, and lie before a time.
  abbrev pub IsTimeline : ℕ → ℕ → List (ℕ × String) → Type 0
  IsTimeline from until [] = Unit {0}
  IsTimeline from until ((now, other) ∷ ops) =
      (from ≤ now) × (now < until) × IsTimeline now until ops

  Lasts-later :
      (key : String) (from now until : ℕ) (s : State)
      → from ≤ now
      → now < until
      → Lasts until (counter key from s)
      → Lasts until (counter key now s) × (counter key now s ≡ counter key from s)
  Lasts-later key from now until s le lt lasts =
      let later = redis.counter_later key from now s le in
      elim lasts.counts [
        | inl absent ↦
            (record { counts = inl (ground (arith, later, absent)) }, ground (arith, later, absent))
        | inr (n, e, there, far) ↦ (
          record { counts = inr (n, e, ground (arith, later, there, far), far) },
          ground (arith, later, there, far),
        )
      ]

  attempt_own :
      (key : String) (now until : ℕ) (s : State)
      → Lasts until (counter (limit_key key) now s)
      → until ≤ now + window_seconds * 1000
      → now < until
      → let v = value (counter (limit_key key) now s) in
        (allows key (now, key) s ≡ (if ltb max_attempts (suc v) then 0 else 1))
        × ((e : ℕ) × (counter
                (limit_key key)
                now
                (consume_attempt redis key max_attempts window_seconds now s).0
              ≡ some (suc v, some e))
            × (until ≤ e))
  unfolding allows
  attempt_own key now until s lasts window lt =
      let (moved, answer) = consume_attempt_lem key now s in
      let (current, (e, there, far)) =
        script_own (limit_key key) now now until s lasts window (omega arith) lt in
      (ground (arith, answer, current, eq_iff key key), (e, rw moved there, far))

  attempt_other :
      (other key : String) (now until : ℕ) (s : State)
      → str_eq other key ≡ false
      → (allows key (now, other) s ≡ 0)
        × (counter
              (limit_key key)
              now
              (consume_attempt redis other max_attempts window_seconds now s).0
            ≡ counter (limit_key key) now s)
  unfolding allows
  attempt_other other key now until s differ =
      let (moved, answer) = consume_attempt_lem other now s in
      (
        ground (arith, differ),
        rw moved (
            script_other (limit_key other) (limit_key key) now now s
              (limit_key-str_eq other key ∙ differ) (omega arith)),
      )

  times_allowed_from :
      (ops : List (ℕ × String)) (key : String) (start from until : ℕ) (s : State)
      → start ≤ from
      → until ≤ start + window_seconds * 1000
      → IsTimeline from until ops
      → Lasts until (counter (limit_key key) from s)
      → times_allowed key ops s + value (counter (limit_key key) from s)
        ≤ max max_attempts (value (counter (limit_key key) from s))
  unfolding times_allowed
  times_allowed_from [] key start from until s first window times lasts = omega arith
  times_allowed_from ((now, other) ∷ ops) key start from until s first window times lasts =
      let (lasts', same) = Lasts-later (limit_key key) from now until s times.0 times.1 lasts in
      let s' = (consume_attempt redis other max_attempts window_seconds now s).0 in
      elim (Bool-cases (str_eq other key)) [
        | inl own ↦
            let (counted, (e, there, far)) =
              subst
                (λ k.
                  (allows key (now, k) s ≡ (
                    if ltb max_attempts (suc (value (counter (limit_key key) now s)))
                    then 0
                    else 1))
                  × ((e : ℕ) × (counter (limit_key key) now
                          (consume_attempt redis k max_attempts window_seconds now s).0
                        ≡ some (suc (value (counter (limit_key key) now s)), some e))
                      × (until ≤ e)))
                (sym ((eq_iff other key).0 own))
                (attempt_own key now until s lasts' (omega (arith, times.0)) times.1) in
            let rest =
              times_allowed_from ops key start now until s' (omega (arith, times.0)) window times.2
                (record { counts = inr (value (counter (limit_key key) now s), e, there, far) }) in
            ground (arith, counted, ap value there, rest, ap value same)
        | inr differ ↦
            let (counted, kept) = attempt_other other key now until s differ in
            let rest =
              times_allowed_from ops key start now until s' (omega (arith, times.0)) window times.2
                (subst (Lasts until) (sym kept) lasts') in
            omega (arith, counted, ap value kept, rest, ap value same)
      ]

  -- Within one window from a time at which nothing has been counted for a key, no more attempts with the
  -- key are allowed than the limit says, whatever attempts with other keys come in between.
  pub times_allowed_lem :
      (ops : List (ℕ × String)) (key : String) (start : ℕ) (s : State)
      → counter (limit_key key) start s ≡ none
      → IsTimeline start (start + window_seconds * 1000) ops
      → times_allowed key ops s ≤ max_attempts
  times_allowed_lem ops key start s absent times =
      let bound =
        times_allowed_from ops key start start (start + window_seconds * 1000) s (omega arith)
          (omega arith) times (record { counts = inl absent }) in
      omega (arith, bound, ap value absent)
