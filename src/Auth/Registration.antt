-- ===== src/Auth/Registration.antt =====
-- application/commands/register-user.use-case.ts, with the queries of
-- infrastructure/prisma-user.repository.ts and `registerTeammate` of interfaces/auth.controller.ts, of
-- apps/core-api/src/modules/auth. The trimming and lowering of an e-mail address, the test of its pattern
-- and the hash of a password are parameters.
pub mod Owners
use ethixweb_ai_csr.Common.{
  ℕ, Bool, true, false, not, ◌&&◌, List, [], ◌∷◌, ◌++◌, Option, none, some, String, any, find,
  str_eq, if◌then◌else◌,
}
use ethixweb_ai_csr.Auth.Roles.{UserRole, owner, admin, can_assign_role, jwt, can_activate}
use ethixweb_ai_csr.Auth.RefreshTokens.{User}
use ethixweb_ai_csr.Auth.Login.{PublicUser, to_public_user}

pub record RegisterUserCommand : Type 0 where
  pub tenant_id : String
  pub email : String
  pub password : String
  pub role : UserRole
  pub acting_user_role : Option UserRole

-- What the use-case returns, or the error that it throws.
pub data RegisterAnswer : Type 0 where
  registered : PublicUser → RegisterAnswer
  cannot_assign_role : UserRole → RegisterAnswer
  invalid_email email_already_registered : String → RegisterAnswer

-- `assertCanAssignRole` throws, which is asked only where there is an acting user.
unfoldable pub refuses : Option UserRole → UserRole → Bool
refuses none target = false
refuses (some acting) target = not (can_assign_role acting target)

-- What the caller sends to `registerTeammate`.
pub record RegisterUserDto : Type 0 where
  pub email : String
  pub password : String
  pub role : UserRole

module _ (normalized : String → String) (is_email : String → Bool) (hash : String → String) where
  inserted : RegisterUserCommand → String → String → ℕ → List User → List User × RegisterAnswer
  inserted c email id now users =
      let user : User = record {
        id = id;
        tenant_id = c.tenant_id;
        email = email;
        password_hash = hash c.password;
        role = c.role;
        last_login_at = none;
        created_at = now;
        updated_at = now;
      } in
      if any (λ u. str_eq u.tenant_id c.tenant_id && str_eq u.email email) users
      then (users, email_already_registered email)
      else (users ++ user ∷ [], registered (to_public_user user))

  -- `RegisterUserUseCase.execute`, with the id and the time that the database gives a new row.
  unfoldable pub register_user :
      RegisterUserCommand → String → ℕ → List User → List User × RegisterAnswer
  unfolding inserted
  register_user c id now users =
      if refuses c.acting_user_role c.role
      then (users, cannot_assign_role c.role)
      else if is_email (normalized c.email)
      then inserted c (normalized c.email) id now users
      else (users, invalid_email c.email)

  -- `registerTeammate` behind its guard, asked by a user, whose token carries the tenant and the role.
  unfoldable pub register_teammate :
      User → RegisterUserDto → String → ℕ → List User → List User × Option RegisterAnswer
  register_teammate principal dto id now users =
      let c : RegisterUserCommand = record {
        tenant_id = principal.tenant_id;
        email = dto.email;
        password = dto.password;
        role = dto.role;
        acting_user_role = some principal.role;
      } in
      let (users', answer) = register_user c id now users in
      if can_activate (owner ∷ admin ∷ []) (some (jwt principal.role))
      then (users', some answer)
      else (users, none)

  asked_by : Option User → RegisterUserDto → String → ℕ → List User → List User
  unfolding register_teammate
  asked_by none dto id now users = users
  asked_by (some principal) dto id now users = (register_teammate principal dto id now users).0

  -- Registrations one after the other, each asked for by the user with the id given first, who is in the
  -- table by then, or nothing happens.
  unfoldable pub run : List (String × RegisterUserDto × String × ℕ) → List User → List User
  unfolding asked_by
  run [] users = users
  run ((by, dto, id, now) ∷ rest) users =
      run rest (asked_by (find (λ u. str_eq u.id by) users) dto id now users)
