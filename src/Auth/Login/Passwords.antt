-- ===== src/Auth/Login/Passwords.antt =====
-- login.use-case.ts: the limit on the passwords of one user.
use ethixweb_ai_csr.Common.{
  ℕ, ◌+◌, ◌*◌, ◌≤◌, ◌≡◌, refl, ap, Bool, ◌&&◌, List, [], ◌∷◌, Option, none, String, arith, eq_iff,
  str_eq, if◌then◌else◌, length, filter,
}
use ethixweb_ai_csr.Auth.RefreshTokens.{TokenRedis, User}
use ethixweb_ai_csr.Auth.Login.{
  CounterRedis, RateLimitResult, allowed, retry_after_seconds, LoginCommand, LoginState, login_key,
  limit_key, consume_attempt, login_max_attempts, login_window_seconds, limited, log_in, login,
}
use ethixweb_ai_csr.Auth.Login.Limit.{
  is_allowed, allows, times_allowed, IsTimeline, times_allowed_lem,
}

-- How often the password of a tenant's user was checked.
abbrev pub checks : String → String → List (String × String) → ℕ
checks tenant_id email done = length (filter (λ p. str_eq p.0 tenant_id && str_eq p.1 email) done)

module _ (redis : CounterRedis) (token_redis : TokenRedis) (normalized : String → String)
    (verify : String → String → Bool) (ttl : ℕ)
    (find_by_email : ℕ → String → String → Option User) where
  -- Logins one after the other, each with its time and the id of its token; the table of users may
  -- change in between.
  pub run :
      List (ℕ × LoginCommand × String)
      → LoginState redis.State token_redis.State
      → LoginState redis.State token_redis.State
  run [] s = s
  run ((now, c, jti) ∷ ops) s =
      run ops (login redis token_redis normalized verify ttl (find_by_email now) c jti now s).0

  -- The attempts that they make at the rate limiter.
  abbrev pub attempts : List (ℕ × LoginCommand × String) → List (ℕ × String)
  attempts [] = []
  attempts ((now, c, jti) ∷ ops) = (now, login_key c.tenant_id (normalized c.email)) ∷ attempts ops

  limited_lem :
      (c : LoginCommand) (email : String) (user : Option User) (jti : String) (now : ℕ)
      (r : RateLimitResult) (s : LoginState redis.State token_redis.State)
      → ((limited redis token_redis normalized verify ttl c email user jti now r s).0.counters
          ≡ s.counters)
        × ((limited redis token_redis normalized verify ttl c email user jti now r s).0.checked
            ≡ (if is_allowed r then (c.tenant_id, email) ∷ s.checked else s.checked))
  unfolding limited log_in is_allowed
  limited_lem c email user jti now (retry_after_seconds n) s = (refl, refl)
  limited_lem c email user jti now allowed s = (ground arith, ground arith)

  login_lem :
      (c : LoginCommand) (jti : String) (now : ℕ) (s : LoginState redis.State token_redis.State)
      → let key = login_key c.tenant_id (normalized c.email) in
        let r = consume_attempt redis key login_max_attempts login_window_seconds now s.counters in
        let s' =
          (login redis token_redis normalized verify ttl (find_by_email now) c jti now s).0 in
        (s'.counters ≡ r.0)
        × (s'.checked
            ≡ (if is_allowed r.1 then (c.tenant_id, normalized c.email) ∷ s.checked else s.checked))
  unfolding login
  login_lem c jti now s =
      let key = login_key c.tenant_id (normalized c.email) in
      let r = consume_attempt redis key login_max_attempts login_window_seconds now s.counters in
      limited_lem c (normalized c.email) (find_by_email now c.tenant_id (normalized c.email)) jti
        now r.1 (record s { counters = r.0 })

  checks-login :
      (c : LoginCommand) (jti : String) (now : ℕ) (s : LoginState redis.State token_redis.State)
      (tenant_id email : String)
      → checks tenant_id email
          (login redis token_redis normalized verify ttl (find_by_email now) c jti now s).0.checked
        ≤ checks tenant_id email s.checked
          + allows redis login_max_attempts login_window_seconds
              (login_key tenant_id email)
              (now, login_key c.tenant_id (normalized c.email))
              s.counters
  unfolding allows
  checks-login c jti now s t e =
      let (counters, checked) = login_lem c jti now s in
      rw checked (
        ground (
          arith,
          eq_iff c.tenant_id t,
          eq_iff (normalized c.email) e,
          eq_iff (login_key c.tenant_id (normalized c.email)) (login_key t e),
        ))

  checks-run :
      (ops : List (ℕ × LoginCommand × String)) (s : LoginState redis.State token_redis.State)
      (tenant_id email : String)
      → checks tenant_id email (run ops s).checked
        ≤ checks tenant_id email s.checked
          + times_allowed redis login_max_attempts login_window_seconds
              (login_key tenant_id email)
              (attempts ops)
              s.counters
  unfolding run times_allowed
  checks-run [] s t e = omega arith
  checks-run ((now, c, jti) ∷ ops) s t e =
      let s' = (login redis token_redis normalized verify ttl (find_by_email now) c jti now s).0 in
      let here = checks-login c jti now s t e in
      let later = checks-run ops s' t e in
      let counters = (login_lem c jti now s).0 in
      let same =
        ap
          (λ k.
            times_allowed redis login_max_attempts login_window_seconds (login_key t e)
              (attempts ops) k)
          counters in
      omega (arith, here, later, same)

  -- In the fifteen minutes that begin at a time at which no attempt is counted for a tenant's user, the
  -- password of that user is checked ten times at most, whatever logins come in between, for whatever
  -- users, whether they succeed or not. This is said of that window
  -- alone, and not of fifteen minutes that lie across two of them.
  pub checks-run_most :
      (ops : List (ℕ × LoginCommand × String)) (s : LoginState redis.State token_redis.State)
      (start : ℕ) (tenant_id email : String)
      → redis.counter (limit_key (login_key tenant_id email)) start s.counters ≡ none
      → IsTimeline redis login_max_attempts login_window_seconds start
          (start + login_window_seconds * 1000)
          (attempts ops)
      → checks tenant_id email (run ops s).checked ≤ checks tenant_id email s.checked + 10
  checks-run_most ops s start t e absent times =
      let most =
        times_allowed_lem redis login_max_attempts login_window_seconds (attempts ops)
          (login_key t e) start s.counters absent times in
      omega (arith, checks-run ops s t e, most)
