-- ===== src/Examples/Tenants.antt =====
-- One tenant, suspended and taken off board while an older request still wants it active.
use ethixweb_ai_csr.Common.{ℕ, ◌≡◌, ◌≤◌, refl, true, [], ◌∷◌, some}
use ethixweb_ai_csr.Tenants.{
  TenantStatus, active, suspended, offboarding, Tenant, concurrent_tenant_modification, find_by_id,
  is_valid_transition, allowed_transitions, write_transition, update_status,
}
use ethixweb_ai_csr.Tenants.Phases.{phase, transitions, renames, run, run-find}

abbrev tenant : TenantStatus → ℕ → Tenant
tenant status now = record {
  id = "1";
  name = "Plumbers";
  plan_tier = "trial";
  status = status;
  created_at = 1;
  updated_at = now;
}

tenant_found :
    (status : TenantStatus) → find_by_id "1" (tenant status 1 ∷ []) ≡ some (tenant status 1)
unfolding find_by_id
tenant_found status = refl

can_offboard : is_valid_transition suspended offboarding ≡ true
unfolding is_valid_transition allowed_transitions
can_offboard = refl

-- The older request, which has read the tenant while it was suspended.
late_activation :
    (write_transition "1" active 6
      (tenant suspended 1)
      (λ rows. rows)
      (tenant offboarding 5 ∷ [])).1
    ≡ concurrent_tenant_modification "1"
unfolding write_transition update_status is_valid_transition allowed_transitions
late_activation = refl

run-find_example :
    (t' : Tenant) × (find_by_id "1" (
        run
          (transitions "1" offboarding 5 (tenant suspended 1)
            ∷ renames "1" "Drains" 6
            ∷ transitions "1" active 7 (tenant suspended 1)
            ∷ [])
          (tenant suspended 1 ∷ []))
      ≡ some t')
    × (phase suspended ≤ phase t'.status)
run-find_example =
    run-find
      (transitions "1" offboarding 5 (tenant suspended 1)
        ∷ renames "1" "Drains" 6
        ∷ transitions "1" active 7 (tenant suspended 1)
        ∷ [])
      (tenant suspended 1 ∷ []) "1" (tenant suspended 1) (tenant_found suspended)
