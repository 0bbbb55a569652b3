-- ===== src/Auth/Login.antt =====
-- infrastructure/redis-rate-limiter.ts and application/commands/login.use-case.ts of
-- apps/core-api/src/modules/auth. The commands of Redis, the trimming and lowering of an e-mail address and
-- the check of a password are parameters; a script runs as one step.
pub mod Limit
pub mod Passwords
use Prim.Native.String.{◌++◌}
use ethixweb_ai_csr.Common.{
  ℕ, zero, suc, ◌+◌, ◌*◌, ◌≤◌, ◌≡◌, max, Bool, true, false, List, [], ◌∷◌, Option, none, some,
  String, ltb, str_eq, if◌then◌else◌, ◌==◌,
}
use ethixweb_ai_csr.Auth.Roles.{UserRole}
use ethixweb_ai_csr.Auth.RefreshTokens.{TokenRedis, User, AccessPayload, RefreshPayload, store}

-- The value of a counter, and the time at which it expires, if it does.
abbrev pub Counter : Type 0
Counter = Option (ℕ × Option ℕ)

abbrev pub alive : ℕ → Counter → Counter
alive t none = none
alive t (some (n, none)) = some (n, none)
alive t (some (n, some until)) = if ltb t until then some (n, some until) else none

abbrev pub value : Counter → ℕ
value none = 0
value (some (n, until)) = n

-- `INCR` counts from 0 where there is no counter, and keeps the expiry of one that is there.
abbrev pub incremented : Counter → Counter
incremented none = some (1, none)
incremented (some (n, until)) = some (suc n, until)

abbrev pub expiring : ℕ → Counter → Counter
expiring until none = none
expiring until (some (n, old)) = some (n, some until)

-- Each command at a time; `counter` is what a `GET` at a time would find.
pub record CounterRedis : Type 1 where
  pub State : Type 0
  pub counter : String → ℕ → State → Counter
  pub incr : String → ℕ → State → State × ℕ
  pub expire : String → ℕ → ℕ → State → State
  -- Seconds, and 0 where Redis answers with a negative number.
  pub ttl : String → ℕ → State → ℕ
  pub incr_counts :
      (key : String) (now : ℕ) (s : State) → (incr key now s).1 ≡ suc (value (counter key now s))
  pub counter-incr :
      (key other : String) (now t : ℕ) (s : State)
      → now ≤ t
      → counter other t (incr key now s).0 ≡ (
          if str_eq key other then alive t (incremented (counter key now s)) else counter other t s)
  pub counter-expire :
      (key other : String) (seconds now t : ℕ) (s : State)
      → now ≤ t
      → counter other t (expire key seconds now s) ≡ (
          if str_eq key other
          then alive t (expiring (now + seconds * 1000) (counter key now s))
          else counter other t s)
  pub counter_later :
      (key : String) (now t : ℕ) (s : State)
      → now ≤ t
      → counter key t s ≡ alive t (counter key now s)

pub data RateLimitResult : Type 0 where
  allowed : RateLimitResult
  retry_after_seconds : ℕ → RateLimitResult

abbrev pub login_max_attempts : ℕ
login_max_attempts = 10

abbrev pub login_window_seconds : ℕ
login_window_seconds = 15 * 60

-- `PublicUser`: the fields of a `User` but its hash.
pub record PublicUser : Type 0 where
  pub id : String
  pub tenant_id : String
  pub email : String
  pub role : UserRole
  pub last_login_at : Option ℕ
  pub created_at : ℕ
  pub updated_at : ℕ

abbrev pub to_public_user : User → PublicUser
to_public_user u = record {
  id = u.id;
  tenant_id = u.tenant_id;
  email = u.email;
  role = u.role;
  last_login_at = u.last_login_at;
  created_at = u.created_at;
  updated_at = u.updated_at;
}

pub record LoginCommand : Type 0 where
  pub tenant_id : String
  pub email : String
  pub password : String

-- What `LoginUseCase` returns or throws.
pub data LoginResult : Type 0 where
  logged_in : PublicUser → AccessPayload → RefreshPayload → LoginResult
  rate_limit_exceeded : ℕ → LoginResult
  invalid_credentials : LoginResult

unfoldable pub limit_key : String → String
limit_key key = "ratelimit:" ++ key

unfoldable pub login_key : String → String → String
login_key tenant_id email = "login:" ++ (tenant_id ++ (":" ++ email))

module _ (redis : CounterRedis) where
  open redis use {State, counter, incr, expire, ttl}

  -- `INCREMENT_WITH_EXPIRY_SCRIPT`
  unfoldable pub increment_script : String → ℕ → ℕ → State → State × ℕ
  increment_script key window_seconds now s =
      let (s', current) = incr key now s in
      if current == 1 then (expire key window_seconds now s', current) else (s', current)

  unfoldable pub consume_attempt : String → ℕ → ℕ → ℕ → State → State × RateLimitResult
  unfolding increment_script
  consume_attempt key max_attempts window_seconds now s =
      let (s', count) = increment_script (limit_key key) window_seconds now s in
      (
        s',
        if ltb max_attempts count
            then retry_after_seconds (max (ttl (limit_key key) now s') 1)
            else allowed,
      )

-- The state of the two stores, the writes of `updateLastLoginAt`, and the tenants and addresses whose
-- users were looked up to check a password.
pub record LoginState (C T : Type 0) : Type 0 where
  pub counters : C
  pub tokens : T
  pub last_logins : List (String × ℕ)
  pub checked : List (String × String)

module _ (redis : CounterRedis) (token_redis : TokenRedis) (normalized : String → String)
    (verify : String → String → Bool) (refresh_token_ttl_seconds : ℕ) where
  password_matches : Option User → String → Bool
  password_matches none password = false
  password_matches (some user) password = verify user.password_hash password

  -- What `LoginUseCase` does once the user has been looked up.
  log_in :
      LoginCommand
      → String
      → ℕ
      → Option User
      → Bool
      → LoginState redis.State token_redis.State
      → LoginState redis.State token_redis.State × LoginResult
  log_in c jti now none matches s = (s, invalid_credentials)
  log_in c jti now (some user) false s = (s, invalid_credentials)
  log_in c jti now (some user) true s = (
    record s {
      tokens = store token_redis user.id jti refresh_token_ttl_seconds now s.tokens;
      last_logins = (user.id, now) ∷ s.last_logins;
    },
    logged_in (to_public_user user)
        (record { sub = user.id; tenant_id = user.tenant_id; role = user.role })
        (record { sub = user.id; jti = jti; tenant_id = user.tenant_id }),
  )

  limited :
      LoginCommand
      → String
      → Option User
      → String
      → ℕ
      → RateLimitResult
      → LoginState redis.State token_redis.State
      → LoginState redis.State token_redis.State × LoginResult
  unfolding log_in password_matches
  limited c email user jti now (retry_after_seconds n) s = (s, rate_limit_exceeded n)
  limited c email user jti now allowed s =
      log_in c jti now user (password_matches user c.password)
        (record s { checked = (c.tenant_id, email) ∷ s.checked })

  -- `LoginUseCase.execute`; `find_by_email` is the repository, and `jti` the fresh id of the new token.
  unfoldable pub login :
      (String → String → Option User)
      → LoginCommand
      → String
      → ℕ
      → LoginState redis.State token_redis.State
      → LoginState redis.State token_redis.State × LoginResult
  unfolding limited
  login find_by_email c jti now s =
      let email = normalized c.email in
      let (counters', result) =
        consume_attempt redis (login_key c.tenant_id email) login_max_attempts login_window_seconds
          now s.counters in
      limited c email (find_by_email c.tenant_id email) jti now result
        (record s { counters = counters' })
