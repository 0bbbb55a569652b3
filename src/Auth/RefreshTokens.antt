-- ===== src/Auth/RefreshTokens.antt =====
-- infrastructure/redis-refresh-token.store.ts, and application/commands/refresh-token.use-case.ts and
-- logout.use-case.ts, of apps/core-api/src/modules/auth. The commands of Redis are a parameter; a script
-- and a `MULTI` run as one step. The signature check of a token gives its payload or none, and the
-- signing is not modelled: a token is its payload.
pub mod Rotation
use Prim.Native.String.{◌++◌}
use ethixweb_ai_csr.Common.{
  ℕ, ◌+◌, ◌*◌, ◌≤◌, ◌<◌, ◌≡◌, Bool, true, false, List, [], ◌∷◌, Option, none, some, String, ltb,
  str_eq, if◌then◌else◌,
}
use ethixweb_ai_csr.Auth.Roles.{UserRole}

-- Texts with a time to live, and sets. Each at a time; a `GET` finds what has not expired.
pub record TokenRedis : Type 1 where
  pub State : Type 0
  pub get : String → ℕ → State → Option String
  pub set : String → String → ℕ → ℕ → State → State
  pub del : String → State → State
  pub sadd : String → String → State → State
  pub srem : String → String → State → State
  pub smembers : String → State → List String
  pub get-set :
      (key value : String) (ttl now t : ℕ) (other : String) (s : State)
      → now ≤ t
      → get other t (set key value ttl now s) ≡ (
          if str_eq key other
          then (if ltb t (now + ttl * 1000) then some value else none)
          else get other t s)
  pub get-del :
      (key : String) (t : ℕ) (other : String) (s : State)
      → get other t (del key s) ≡ (if str_eq key other then none else get other t s)
  pub get-sadd :
      (key member : String) (t : ℕ) (other : String) (s : State)
      → get other t (sadd key member s) ≡ get other t s
  pub get-srem :
      (key member : String) (t : ℕ) (other : String) (s : State)
      → get other t (srem key member s) ≡ get other t s

pub record User : Type 0 where
  pub id : String
  pub tenant_id : String
  pub email : String
  pub password_hash : String
  pub role : UserRole
  pub last_login_at : Option ℕ
  pub created_at : ℕ
  pub updated_at : ℕ

pub record RefreshPayload : Type 0 where
  pub sub : String
  pub jti : String
  pub tenant_id : String

pub record AccessPayload : Type 0 where
  pub sub : String
  pub tenant_id : String
  pub role : UserRole

-- What `RefreshTokenUseCase` returns or throws.
pub data Refreshed : Type 0 where
  tokens : AccessPayload → RefreshPayload → Refreshed
  invalid_refresh_token : Refreshed
  user_not_found : String → Refreshed

unfoldable pub token_key : String → String
token_key jti = "auth:refresh:" ++ jti

unfoldable pub user_index_key : String → String
user_index_key user_id = "auth:refresh:by-user:" ++ user_id

-- `storedUserId == ARGV[1]`
stored_is : Option String → String → Bool
stored_is none user_id = false
stored_is (some stored) user_id = str_eq stored user_id

module _ (redis : TokenRedis) where
  open redis use {State, get, set, del, sadd, srem, smembers}

  unfoldable pub store : String → String → ℕ → ℕ → State → State
  store user_id jti ttl_seconds now s =
      sadd (user_index_key user_id) jti (set (token_key jti) user_id ttl_seconds now s)

  unfoldable pub is_valid : String → String → ℕ → State → Bool
  unfolding stored_is
  is_valid user_id jti now s = stored_is (get (token_key jti) now s) user_id

  unfoldable pub consume : String → String → ℕ → State → State × Bool
  unfolding stored_is
  consume user_id jti now s =
      if stored_is (get (token_key jti) now s) user_id
      then (srem (user_index_key user_id) jti (del (token_key jti) s), true)
      else (s, false)

  unfoldable pub revoke : String → String → State → State
  revoke user_id jti s = srem (user_index_key user_id) jti (del (token_key jti) s)

  delete_tokens : List String → State → State
  delete_tokens [] s = s
  delete_tokens (jti ∷ jtis) s = delete_tokens jtis (del (token_key jti) s)

  delete_all : String → List String → State → State
  unfolding delete_tokens
  delete_all user_id [] s = s
  delete_all user_id (jti ∷ jtis) s = del (user_index_key user_id) (delete_tokens (jti ∷ jtis) s)

  -- `revokeAll`: it reads the index, and deletes what it has read in a later step, with other clients in
  -- between.
  unfoldable pub revoke_all : String → (State → State) → State → State
  unfolding delete_all
  revoke_all user_id between s =
      delete_all user_id (smembers (user_index_key user_id) s) (between s)

  issue : Option User → String → String → ℕ → ℕ → State → State × Refreshed
  unfolding store
  issue none sub new_jti ttl_seconds now s = (s, user_not_found sub)
  issue (some user) sub new_jti ttl_seconds now s = (
    store user.id new_jti ttl_seconds now s,
    tokens (record { sub = user.id; tenant_id = user.tenant_id; role = user.role })
        (record { sub = user.id; jti = new_jti; tenant_id = user.tenant_id }),
  )

  rotate : RefreshPayload → Option User → String → ℕ → ℕ → State × Bool → State × Refreshed
  unfolding issue
  rotate payload user new_jti ttl_seconds now (s, false) = (s, invalid_refresh_token)
  rotate payload user new_jti ttl_seconds now (s, true) =
      issue user payload.sub new_jti ttl_seconds now s

  -- `RefreshTokenUseCase.execute` on a verified token; `find_user` is the repository, and no other client
  -- acts between the two steps on Redis.
  unfoldable pub refresh :
      (String → String → Option User)
      → Option RefreshPayload
      → String
      → ℕ
      → ℕ
      → State
      → State × Refreshed
  unfolding rotate
  refresh find_user none new_jti ttl_seconds now s = (s, invalid_refresh_token)
  refresh find_user (some payload) new_jti ttl_seconds now s =
      rotate payload (find_user payload.tenant_id payload.sub) new_jti ttl_seconds now
        (consume payload.sub payload.jti now s)

  -- `LogoutUseCase.execute`; a token that cannot be verified is no error.
  unfoldable pub logout : Option RefreshPayload → State → State
  unfolding revoke
  logout none s = s
  logout (some payload) s = revoke payload.sub payload.jti s
