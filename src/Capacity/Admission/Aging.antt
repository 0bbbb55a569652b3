-- ===== src/Capacity/Admission/Aging.antt =====
-- redis-call-admission.adapter.ts: slots that are never released.
use ethixweb_ai_csr.Common.{ℕ, ◌+◌, ◌≤◌, ◌≡◌, ap, List, [], ◌∷◌, String, arith, length, All}
use ethixweb_ai_csr.Capacity.SortedSets.{SortedSets}
use ethixweb_ai_csr.Capacity.Admission.{
  tenant_key, global_key, reservation_ttl_ms, Limits, tenant_ceiling, granted, reserve,
}
use ethixweb_ai_csr.Capacity.Admission.Ceilings.{reserve_lem}
use ethixweb_ai_csr.Capacity.Admission.Slots.{Operation, apply, run, Asks, apply-Touched}
use ethixweb_ai_csr.Capacity.Admission.Touched.{Touched-ExpireBy, ExpireBy, unexpired_none}

module _ (redis : SortedSets) where
  open redis use {State, members}

  -- Every slot that is taken expires by a time.
  abbrev pub AllExpireBy : ℕ → State → Type 0
  AllExpireBy t s =
      ((u : String) → ExpireBy t (members (tenant_key u) s)) × ExpireBy t (members global_key s)

  run-AllExpireBy :
      (most most_global last : ℕ) (ops : List (ℕ × Operation)) (s : State)
      → All (Asks redis most most_global) ops
      → All (λ op. op.0 ≤ last) ops
      → AllExpireBy (last + reservation_ttl_ms) s
      → AllExpireBy (last + reservation_ttl_ms) (run redis ops s)
  unfolding run
  run-AllExpireBy most most_global last [] s asks times h = h
  run-AllExpireBy most most_global last ((now, op) ∷ ops) s asks times h =
      run-AllExpireBy most most_global last ops (apply redis (now, op) s) asks.1 times.1 (
        λ u.
            Touched-ExpireBy (apply-Touched redis u most most_global now op s asks.0).0
              (omega arith) (h.0 u),
        Touched-ExpireBy (apply-Touched redis "" most most_global now op s asks.0).1 (omega arith)
            h.1,
      )

  -- Whatever was reserved and never released up to a time, by any tenants, no slot outlasts that time
  -- by more than the time to live: the next call after it, of any tenant, is granted, if its ceilings
  -- allow any call at all.
  pub reserve_ages_out :
      (ops : List (ℕ × Operation)) (s : State) (most most_global last : ℕ) (tenant_id id : String)
      (limits : Limits) (now : ℕ)
      → All (Asks redis most most_global) ops
      → All (λ op. op.0 ≤ last) ops
      → AllExpireBy (last + reservation_ttl_ms) s
      → last + reservation_ttl_ms ≤ now
      → 1 ≤ tenant_ceiling limits
      → 1 ≤ limits.max_global_concurrent_calls
      → (reserve redis tenant_id id limits now (run redis ops s)).1 ≡ granted id
  reserve_ages_out ops s most most_global last t id limits now asks times before late one one' =
      let (tenant_by, global_by) = run-AllExpireBy most most_global last ops s asks times before in
      let none_live = ap length (unexpired_none now _ _ late (tenant_by t)) in
      let none_live' = ap length (unexpired_none now _ _ late global_by) in
      ((reserve_lem redis t id limits now (run redis ops s)).2 (omega (arith, none_live))
        (omega (arith, none_live'))).0
