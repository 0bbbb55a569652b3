-- ===== src/Tenants/Phases.antt =====
-- tenant-lifecycle.ts: where a tenant's life can go, under concurrent requests.
use ethixweb_ai_csr.Common.{
  ℕ, ◌-◌, ◌≡◌, ◌≤◌, refl, true, ◌⊎◌, inl, inr, Bool-cases, List, [], ◌∷◌, Option, some, String,
  arith, map, find, find-map, find-append, ◌==◌, leb, if◌then◌else◌,
}
use ethixweb_ai_csr.Tenants.{
  TenantStatus, trial, active, past_due, suspended, expired, offboarding, archived, position,
  Tenant, is_row, find_by_id, allowed_transitions, is_valid_transition, new_tenant, create_tenant,
  rename_row, write_name, swap_row, update_status, write_transition,
}
use ethixweb_ai_csr.Tenants.Lifecycle.{swap_row-is_row, rename_row-is_row}

-- A tenant is tried, then used or expired, then taken off board, then archived.
abbrev pub phase : TenantStatus → ℕ
phase trial = 0
phase active = 1
phase past_due = 1
phase suspended = 1
phase expired = 2
phase offboarding = 3
phase archived = 4

phase_at : ℕ → ℕ
phase_at n = if n == 0 then 0 else if leb n 3 then 1 else n - 2

phase_at_lem : (s : TenantStatus) → phase_at (position s) ≡ phase s
unfolding phase_at
phase_at_lem trial = refl
phase_at_lem active = refl
phase_at_lem past_due = refl
phase_at_lem suspended = refl
phase_at_lem expired = refl
phase_at_lem offboarding = refl
phase_at_lem archived = refl

is_valid_transition-phase :
    (s t : TenantStatus) → is_valid_transition s t ≡ true → phase s ≤ phase t
unfolding is_valid_transition allowed_transitions phase_at
is_valid_transition-phase s t valid = ground (arith, phase_at_lem s, phase_at_lem t)

-- A statement that writes. A transition has read the tenant at any time before.
pub data Event : Type 0 where
  creates : String → String → Option String → ℕ → Event
  renames : String → String → ℕ → Event
  transitions : String → TenantStatus → ℕ → Tenant → Event

unfoldable pub apply : Event → List Tenant → List Tenant
apply (creates id name plan_tier now) db = (create_tenant id name plan_tier now db).0
apply (renames id name now) db = (write_name id name now db).0
apply (transitions id to_status now existing) db =
    (write_transition id to_status now existing (λ rows. rows) db).0

unfoldable pub run : List Event → List Tenant → List Tenant
run [] db = db
run (e ∷ es) db = run es (apply e db)

swap_row-phase :
    (id : String) (s t : TenantStatus) (now : ℕ) (r : Tenant)
    → is_valid_transition s t ≡ true
    → phase r.status ≤ phase (swap_row id s t now r).status
unfolding swap_row phase_at
swap_row-phase id s t now r valid =
    ground (arith, is_valid_transition-phase s t valid, phase_at_lem s, phase_at_lem r.status)

update_status_cases :
    (id : String) (s t : TenantStatus) (now : ℕ) (db : List Tenant)
    → ((update_status id s t now (λ rows. rows) db).0 ≡ db)
      ⊎ ((update_status id s t now (λ rows. rows) db).0 ≡ map (swap_row id s t now) db)
unfolding update_status
update_status_cases id s t now db = ground arith

create_tenant_cases :
    (id name : String) (plan_tier : Option String) (now : ℕ) (db : List Tenant) (k : String)
    (t : Tenant)
    → find (is_row k) db ≡ some t
    → find (is_row k) (create_tenant id name plan_tier now db).0 ≡ some t
unfolding create_tenant
create_tenant_cases id name plan_tier now db k t found =
    ground (arith, find-append (is_row k) db (new_tenant id name plan_tier now ∷ []) t found)

apply-find :
    (e : Event) (db : List Tenant) (id : String) (t : Tenant)
    → find_by_id id db ≡ some t
    → (t' : Tenant) × (find_by_id id (apply e db) ≡ some t') × (phase t.status ≤ phase t'.status)
unfolding apply find_by_id write_name rename_row write_transition
apply-find (creates k name plan_tier now) db id t found =
    (t, create_tenant_cases k name plan_tier now db id t found, omega arith)
apply-find (renames k name now) db id t found =
    let f = rename_row k name now in
    (f t, find-map (is_row id) f db t (rename_row-is_row k name now id) found, ground arith)
apply-find (transitions k to_status now existing) db id t found =
    let s = existing.status in
    let f = swap_row k s to_status now in
    let moved = find-map (is_row id) f db t (swap_row-is_row k s to_status now id) found in
    elim (Bool-cases (is_valid_transition s to_status)) [
      | inl valid ↦ elim (update_status_cases k s to_status now db) [
        | inl same ↦ (t, ground arith, omega arith)
        | inr swapped ↦ (f t, ground arith, swap_row-phase k s to_status now t valid)
      ]
      | inr invalid ↦ (t, ground arith, omega arith)
    ]

-- Whatever requests write, on however old reads, a tenant stays in the table and never goes back to an
-- earlier phase: it is not on trial again once it has left, and not active again once it has expired or
-- is being taken off board.
pub run-find :
    (es : List Event) (db : List Tenant) (id : String) (t : Tenant)
    → find_by_id id db ≡ some t
    → (t' : Tenant) × (find_by_id id (run es db) ≡ some t') × (phase t.status ≤ phase t'.status)
unfolding run
run-find [] db id t found = (t, found, omega arith)
run-find (e ∷ es) db id t found =
    let (m, found', le) = apply-find e db id t found in
    let (t', found'', le') = run-find es (apply e db) id m found' in
    (t', found'', omega (arith, le, le'))
