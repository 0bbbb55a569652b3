-- ===== src/Auth/Registration/Owners.antt =====
-- register-user.use-case.ts: who may become an owner.
use ethixweb_ai_csr.Common.{
  ℕ, ◌≡◌, ◌∙◌, refl, sym, ap, Bool, true, false, ◌&&◌, ◌||◌, List, [], ◌∷◌, ◌++◌, Option, none,
  some, String, arith, any, find, str_eq, Bool-cases, inl, inr, if◌then◌else◌,
}
use ethixweb_ai_csr.Auth.Roles.{
  UserRole, owner, admin, dispatcher, viewer, role_eq, can_assign_role, assignable_roles,
  can_activate, jwt,
}
use ethixweb_ai_csr.Auth.RefreshTokens.{User}
use ethixweb_ai_csr.Auth.Registration.{
  RegisterUserCommand, RegisterUserDto, RegisterAnswer, refuses, inserted, register_user,
  register_teammate, asked_by, run,
}

-- A tenant's user who is an owner.
abbrev pub owns : String → User → Bool
owns tenant_id u = str_eq u.tenant_id tenant_id && role_eq u.role owner

abbrev pub has_owner : String → List User → Bool
has_owner tenant_id users = any (owns tenant_id) users

any-snoc {ℓ} :
    {A : Type ℓ} (p : A → Bool) (xs : List A) (x : A) → any p (xs ++ x ∷ []) ≡ (any p xs || p x)
any-snoc p [] x = ground arith
any-snoc p (y ∷ xs) x = ground (arith, any-snoc p xs x)

-- What does not hold of any element does not hold of one that is found.
find-false {ℓ} :
    {A : Type ℓ} (p q : A → Bool) (xs : List A) (x : A)
    → any q xs ≡ false
    → find p xs ≡ some x
    → q x ≡ false
find-false p q [] x h e = ground arith
find-false p q (y ∷ xs) x h e = elim (Bool-cases (p y)) [
  | inl here ↦ ground (arith, here, h, e)
  | inr later ↦ find-false p q xs x (ground (arith, h)) (ground (arith, later, e))
]

-- None but an owner makes an owner.
refuses-owner :
    (acting target : UserRole)
    → role_eq acting owner ≡ false
    → refuses (some acting) target ≡ false
    → role_eq target owner ≡ false
unfolding refuses can_assign_role assignable_roles
refuses-owner owner target h e = ground (arith, h)
refuses-owner admin owner h e = ground (arith, e)
refuses-owner admin admin h e = refl
refuses-owner admin dispatcher h e = refl
refuses-owner admin viewer h e = refl
refuses-owner dispatcher target h e = ground (arith, e)
refuses-owner viewer target h e = ground (arith, e)

module _ (normalized : String → String) (is_email : String → Bool) (hash : String → String) where
  register_user-has_owner :
      (c : RegisterUserCommand) (acting : UserRole) (id : String) (now : ℕ) (users : List User)
      (tenant_id : String)
      → c.acting_user_role ≡ some acting
      → (str_eq c.tenant_id tenant_id && role_eq acting owner) ≡ false
      → has_owner tenant_id users ≡ false
      → has_owner tenant_id (register_user normalized is_email hash c id now users).0 ≡ false
  unfolding register_user inserted
  register_user-has_owner c acting id now users tenant_id by h none_yet =
      elim (Bool-cases (refuses c.acting_user_role c.role)) [
        | inl refused ↦ rw refused none_yet
        | inr granted ↦
            let user : User = record {
              id = id;
              tenant_id = c.tenant_id;
              email = normalized c.email;
              password_hash = hash c.password;
              role = c.role;
              last_login_at = none;
              created_at = now;
              updated_at = now;
            } in
            let fresh : owns tenant_id user ≡ false =
              elim (Bool-cases (str_eq c.tenant_id tenant_id)) [
                | inl same ↦ rw same (
                    refuses-owner acting c.role (ground (arith, same, h))
                      (ap (λ a. refuses a c.role) (sym by) ∙ granted))
                | inr other ↦ rw other refl
              ] in
            let added = any-snoc (owns tenant_id) users user in
            rw granted (elim (Bool-cases (is_email (normalized c.email))) [
              | inr invalid ↦ rw invalid none_yet
              | inl valid ↦
                  rw valid
                    (elim (Bool-cases (
                      any
                        (λ u. str_eq u.tenant_id c.tenant_id && str_eq u.email (normalized c.email))
                        users)) [
                          | inl taken ↦ rw taken none_yet
                          | inr free ↦ rw free (added ∙ rw (none_yet, fresh) refl)
                        ])
            ])
      ]

  asked_by-has_owner :
      (found : Option User) (by : String) (dto : RegisterUserDto) (id : String) (now : ℕ)
      (users : List User) (tenant_id : String)
      → find (λ u. str_eq u.id by) users ≡ found
      → has_owner tenant_id users ≡ false
      → has_owner tenant_id (asked_by normalized is_email hash found dto id now users) ≡ false
  unfolding asked_by register_teammate
  asked_by-has_owner none by dto id now users tenant_id e none_yet = none_yet
  asked_by-has_owner (some principal) by dto id now users tenant_id e none_yet =
      let c : RegisterUserCommand = record {
        tenant_id = principal.tenant_id;
        email = dto.email;
        password = dto.password;
        role = dto.role;
        acting_user_role = some principal.role;
      } in
      let no_owner = find-false (λ u. str_eq u.id by) (owns tenant_id) users principal none_yet e in
      let made =
        register_user-has_owner c principal.role id now users tenant_id refl no_owner none_yet in
      admitted (can_activate (owner ∷ admin ∷ []) (some (jwt principal.role)))
        (register_user normalized is_email hash c id now users) made
    where
      admitted :
          (admits : Bool) (r : List User × RegisterAnswer)
          → has_owner tenant_id r.0 ≡ false
          → has_owner tenant_id
              (if◌then◌else◌ {A = List User × Option RegisterAnswer} admits
                (r.0, some r.1)
                (users, none)).0
            ≡ false
      admitted true r made = made
      admitted false r made = none_yet

  -- A tenant without an owner gets none by registrations that its users, or those of other tenants, ask
  -- for over the interface: whoever of the users in the table asks, and whatever is asked for, in whatever
  -- order, users who have been registered by then included, no user of the tenant is an owner afterwards.
  pub run-has_owner :
      (requests : List (String × RegisterUserDto × String × ℕ)) (users : List User)
      (tenant_id : String)
      → has_owner tenant_id users ≡ false
      → has_owner tenant_id (run normalized is_email hash requests users) ≡ false
  unfolding run
  run-has_owner [] users tenant_id none_yet = none_yet
  run-has_owner ((by, dto, id, now) ∷ rest) users tenant_id none_yet =
      let found = find (λ u. str_eq u.id by) users in
      run-has_owner rest (asked_by normalized is_email hash found dto id now users) tenant_id
        (asked_by-has_owner found by dto id now users tenant_id refl none_yet)
