-- ===== src/Tenants/Lifecycle.antt =====
-- transition-tenant-status.use-case.ts: a legal transition with no other request in between.
use ethixweb_ai_csr.Common.{
  ℕ, ◌≡◌, true, ◌&&◌, List, some, String, arith, find, any, find-map, find-some, any_of_find,
}
use ethixweb_ai_csr.Tenants.{
  TenantStatus, Tenant, answered, is_row, status_eq, find_by_id, is_valid_transition, swap_row,
  rename_row, update_status, write_transition, read_transition, or_missing,
  transition_tenant_status, get_tenant,
}

pub swap_row-is_row :
    (id : String) (s t : TenantStatus) (now : ℕ) (k : String) (r : Tenant)
    → is_row k (swap_row id s t now r) ≡ is_row k r
unfolding swap_row
swap_row-is_row id s t now k r = ground arith

pub rename_row-is_row :
    (id name : String) (now : ℕ) (k : String) (r : Tenant)
    → is_row k (rename_row id name now r) ≡ is_row k r
unfolding rename_row
rename_row-is_row id name now k r = ground arith

any-swaps :
    (id : String) (db : List Tenant) (t : Tenant)
    → find (is_row id) db ≡ some t
    → any (λ r. is_row id r && status_eq r.status t.status) db ≡ true
any-swaps id db t e =
    any_of_find (is_row id) (λ r. status_eq r.status t.status) db t e (ground arith)

-- The answer to a legal transition is the tenant that was there in its new status, and a read afterwards
-- answers the same.
pub transition_tenant_status_lem :
    (id : String) (to_status : TenantStatus) (now : ℕ) (db : List Tenant) (t : Tenant)
    → find_by_id id db ≡ some t
    → is_valid_transition t.status to_status ≡ true
    → let moved = record t { status = to_status; updated_at = now } in
      let (db', answer) = transition_tenant_status id to_status now db in
      (answer ≡ answered moved) × (get_tenant id db' ≡ answered moved)
unfolding find_by_id transition_tenant_status read_transition write_transition update_status
    or_missing get_tenant swap_row
transition_tenant_status_lem id to_status now db t found valid =
    let f = swap_row id t.status to_status now in
    let mine = find-some (is_row id) db t found in
    let later = find-map (is_row id) f db t (swap_row-is_row id t.status to_status now id) found in
    let hit = any-swaps id db t found in
    (ground (arith, later, hit, mine), ground (arith, later, hit, mine))
