-- ===== src/Tenants.antt =====
-- apps/core-api/src/modules/tenants: domain/tenant-lifecycle.ts and tenant.entity.ts, the use-cases
-- create-tenant, get-tenant, update-tenant and transition-tenant-status of application/, and the reads and
-- writes of infrastructure/prisma-tenant.repository.ts. The table of tenants is used outside any
-- transaction, so other requests can come between any two statements of a use-case: the rest of a
-- use-case behind its first read is a definition of its own, and `others` is what happens between the
-- update of a status and the read of the answer.
pub mod Lifecycle
pub mod Phases
use ethixweb_ai_csr.Common.{
  ℕ, Bool, true, List, [], ◌∷◌, ◌++◌, Option, none, some, String, map, find, any, str_eq,
  if◌then◌else◌, ◌==◌, ◌&&◌,
}

pub data TenantStatus : Type 0 where
  trial active past_due suspended expired offboarding archived : TenantStatus

-- The place of a status in the source's table.
abbrev pub position : TenantStatus → ℕ
position trial = 0
position active = 1
position past_due = 2
position suspended = 3
position expired = 4
position offboarding = 5
position archived = 6

-- `===` on statuses.
abbrev pub status_eq : TenantStatus → TenantStatus → Bool
status_eq s t = position s == position t

-- `ALLOWED_TRANSITIONS`
unfoldable pub allowed_transitions : TenantStatus → List TenantStatus
allowed_transitions trial = active ∷ expired ∷ []
allowed_transitions active = past_due ∷ suspended ∷ []
allowed_transitions past_due = active ∷ suspended ∷ []
allowed_transitions suspended = active ∷ offboarding ∷ []
allowed_transitions expired = offboarding ∷ []
allowed_transitions offboarding = archived ∷ []
allowed_transitions archived = []

-- `assertValidTenantStatusTransition`: whether it does not throw.
unfoldable pub is_valid_transition : TenantStatus → TenantStatus → Bool
unfolding allowed_transitions
is_valid_transition start target =
    if status_eq start target
    then true
    else any (λ s. status_eq s target) (allowed_transitions start)

pub record Tenant : Type 0 where
  pub id : String
  pub name : String
  pub plan_tier : String
  pub status : TenantStatus
  pub created_at : ℕ
  pub updated_at : ℕ

-- What a use-case returns or throws. The last two are the database's errors on a key that is there
-- already and on a row that is not, and the repository's own on a tenant gone behind its update.
pub data Answer : Type 0 where
  answered : Tenant → Answer
  tenant_not_found concurrent_tenant_modification id_taken record_missing vanished : String → Answer
  illegal_transition : TenantStatus → TenantStatus → Answer

abbrev pub is_row : String → Tenant → Bool
is_row id t = str_eq t.id id

unfoldable pub find_by_id : String → List Tenant → Option Tenant
find_by_id id db = find (is_row id) db

-- `input.planTier ?? "trial"`
plan_or_trial : Option String → String
plan_or_trial none = "trial"
plan_or_trial (some plan_tier) = plan_tier

unfoldable pub new_tenant : String → String → Option String → ℕ → Tenant
unfolding plan_or_trial
new_tenant id name plan_tier now = record {
  id = id;
  name = name;
  plan_tier = plan_or_trial plan_tier;
  status = trial;
  created_at = now;
  updated_at = now;
}

-- `CreateTenantUseCase.execute`; `id` is the fresh one that the database draws.
unfoldable pub create_tenant :
    String → String → Option String → ℕ → List Tenant → List Tenant × Answer
unfolding new_tenant
create_tenant id name plan_tier now db =
    let tenant = new_tenant id name plan_tier now in
    if any (is_row id) db then (db, id_taken id) else (db ++ tenant ∷ [], answered tenant)

or_missing : Answer → Option Tenant → Answer
or_missing missing none = missing
or_missing missing (some t) = answered t

-- `GetTenantUseCase.execute`
unfoldable pub get_tenant : String → List Tenant → Answer
unfolding or_missing
get_tenant id db = or_missing (tenant_not_found id) (find_by_id id db)

unfoldable pub rename_row : String → String → ℕ → Tenant → Tenant
rename_row id name now t = if is_row id t then record t { name = name; updated_at = now } else t

-- The rest of `UpdateTenantUseCase` for a tenant that it has read: `update` with the new name.
unfoldable pub write_name : String → String → ℕ → List Tenant → List Tenant × Answer
unfolding or_missing
write_name id name now db =
    let db' = map (rename_row id name now) db in
    (db', or_missing (record_missing id) (find_by_id id db'))

read_name : String → String → ℕ → Option Tenant → List Tenant → List Tenant × Answer
unfolding write_name
read_name id name now none db = (db, tenant_not_found id)
read_name id name now (some existing) db = write_name id name now db

-- `UpdateTenantUseCase.execute`, with no other request in between.
unfoldable pub update_tenant : String → String → ℕ → List Tenant → List Tenant × Answer
unfolding read_name
update_tenant id name now db = read_name id name now (find_by_id id db) db

-- `updateMany` with the compare-and-swap on the status that was read.
unfoldable pub swap_row : String → TenantStatus → TenantStatus → ℕ → Tenant → Tenant
swap_row id from_status to_status now t =
    if is_row id t
    then (if status_eq t.status from_status
        then record t { status = to_status; updated_at = now }
        else t)
    else t

unfoldable pub update_status :
    String
    → TenantStatus
    → TenantStatus
    → ℕ
    → (List Tenant → List Tenant)
    → List Tenant
    → List Tenant × Answer
unfolding or_missing
update_status id from_status to_status now others db =
    let db' = others (map (swap_row id from_status to_status now) db) in
    if any (λ t. is_row id t && status_eq t.status from_status) db
    then (db', or_missing (vanished id) (find_by_id id db'))
    else (db, concurrent_tenant_modification id)

-- The rest of `TransitionTenantStatusUseCase` for the tenant that it has read.
unfoldable pub write_transition :
    String
    → TenantStatus
    → ℕ
    → Tenant
    → (List Tenant → List Tenant)
    → List Tenant
    → List Tenant × Answer
write_transition id to_status now existing others db =
    if is_valid_transition existing.status to_status
    then update_status id existing.status to_status now others db
    else (db, illegal_transition existing.status to_status)

read_transition : String → TenantStatus → ℕ → Option Tenant → List Tenant → List Tenant × Answer
unfolding write_transition
read_transition id to_status now none db = (db, tenant_not_found id)
read_transition id to_status now (some existing) db =
    write_transition id to_status now existing (λ rows. rows) db

-- `TransitionTenantStatusUseCase.execute`, with no other request in between.
unfoldable pub transition_tenant_status :
    String → TenantStatus → ℕ → List Tenant → List Tenant × Answer
unfolding read_transition
transition_tenant_status id to_status now db =
    read_transition id to_status now (find_by_id id db) db
