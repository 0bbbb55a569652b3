-- ===== src/Auth/Roles.antt =====
-- domain/role-assignment-policy.ts, and interfaces/guards/roles.guard.ts, of apps/core-api/src/modules/auth
use ethixweb_ai_csr.Common.{Bool, true, false, List, [], ◌∷◌, Option, none, some, any}

pub data UserRole : Type 0 where
  owner admin dispatcher viewer : UserRole

abbrev pub role_eq : UserRole → UserRole → Bool
role_eq owner owner = true
role_eq admin admin = true
role_eq dispatcher dispatcher = true
role_eq viewer viewer = true
role_eq _ _ = false

-- `ASSIGNABLE_ROLES`
unfoldable pub assignable_roles : UserRole → List UserRole
assignable_roles owner = owner ∷ admin ∷ dispatcher ∷ viewer ∷ []
assignable_roles admin = admin ∷ dispatcher ∷ viewer ∷ []
assignable_roles dispatcher = []
assignable_roles viewer = []

-- `assertCanAssignRole`: whether it does not throw.
unfoldable pub can_assign_role : UserRole → UserRole → Bool
unfolding assignable_roles
can_assign_role acting target = any (λ r. role_eq r target) (assignable_roles acting)

-- The principal of a request: a user by JWT, or an API key with its scopes, which the guard never reads.
pub data Principal : Type 0 where
  jwt : UserRole → Principal
  api_key : Principal

-- `canActivate`: whether it does not throw.
unfoldable pub can_activate : List UserRole → Option Principal → Bool
can_activate [] principal = true
can_activate (r ∷ rs) none = false
can_activate (r ∷ rs) (some api_key) = false
can_activate (r ∷ rs) (some (jwt role)) = any (λ q. role_eq q role) (r ∷ rs)
