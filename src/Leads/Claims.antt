-- ===== src/Leads/Claims.antt =====
-- claim-lead.use-case.ts: by whom a lead is claimed.
use ethixweb_ai_csr.Common.{
  ℕ, ◌≤◌, ◌≡◌, ◌≢◌, refl, ◌⊎◌, inl, inr, true, false, Bool-cases, List, [], ◌∷◌, ◌++◌, String,
  arith, eq_iff, any, any-append, str_eq, length, filter, length-filter-append, length-filter_none,
}
use ethixweb_ai_csr.Leads.{
  LeadStatus, claimed, Lead, LeadClaim, Database, ClaimLeadCommand, claimed_lead, update_status,
  found_after, write_transition, new_claim, with_claim, write_claim,
}
use ethixweb_ai_csr.Leads.Legal.{Event, transitions, claims_lead, apply, run}

claimed_by :
    (lead_id claim_id : String) (now : ℕ) (c : ClaimLeadCommand) (claims : List LeadClaim)
    → (any (λ k. str_eq k.lead_id lead_id) claims ≡ true) ⊎ (c.lead_id ≡ lead_id)
    → any (λ k. str_eq k.lead_id lead_id) (claims ++ new_claim claim_id now c ∷ []) ≡ true
unfolding new_claim
claimed_by lead_id claim_id now c claims h = ground (
  arith,
  any-append (λ k. str_eq k.lead_id lead_id) claims (new_claim claim_id now c ∷ []),
  eq_iff c.lead_id lead_id,
)

new_claim_alone :
    (lead_id claim_id : String) (now : ℕ) (c : ClaimLeadCommand) (claims : List LeadClaim)
    → length (filter (λ k. str_eq k.lead_id lead_id) claims) ≤ 1
    → any (λ k. str_eq k.lead_id c.lead_id) claims ≡ false
    → length (filter (λ k. str_eq k.lead_id lead_id) (claims ++ new_claim claim_id now c ∷ [])) ≤ 1
unfolding new_claim
new_claim_alone lead_id claim_id now c claims h free =
    let p = λ (k : LeadClaim). str_eq k.lead_id lead_id in
    elim (Bool-cases (str_eq c.lead_id lead_id)) [
      | inl same ↦
          let none_yet =
            length-filter_none p claims (rw (← (eq_iff c.lead_id lead_id).0 same) free) in
          ground (arith, length-filter-append p claims (new_claim claim_id now c ∷ []), none_yet)
      | inr differ ↦ ground (arith, length-filter-append p claims (new_claim claim_id now c ∷ []))
    ]

module _ {J : Type 0} where
  -- The claims of a lead.
  abbrev pub HasUniqueClaims : Database J → Type 0
  HasUniqueClaims db =
      (lead_id : String) → length (filter (λ k. str_eq k.lead_id lead_id) db.claims) ≤ 1

  abbrev pub IsClaimed : String → Database J → Type 0
  IsClaimed lead_id db = any (λ k. str_eq k.lead_id lead_id) db.claims ≡ true

  update_status-claims :
      (tenant_id id : String) (s t : LeadStatus) (now : ℕ) (db : Database J)
      → (update_status tenant_id id s t now db).0.claims ≡ db.claims
  unfolding update_status found_after
  update_status-claims tenant_id id s t now db = ground arith

  -- What a request does to the claims: nothing, or one more, of a lead that has none.
  write_claim-claims :
      (claim_id : String) (now : ℕ) (c : ClaimLeadCommand) (existing : Lead J) (db : Database J)
      → ((write_claim claim_id now c existing db).0.claims ≡ db.claims)
        ⊎ (((write_claim claim_id now c existing db).0.claims
              ≡ db.claims ++ new_claim claim_id now c ∷ [])
            × (any (λ k. str_eq k.lead_id c.lead_id) db.claims ≡ false))
  unfolding write_claim with_claim
  write_claim-claims claim_id now c existing db =
      ground (arith, update_status-claims c.tenant_id c.lead_id existing.status claimed now db)

  write_transition-claims :
      (tenant_id id : String) (t : LeadStatus) (now : ℕ) (existing : Lead J) (db : Database J)
      → (write_transition tenant_id id t now existing db).0.claims ≡ db.claims
  unfolding write_transition
  write_transition-claims tenant_id id t now existing db =
      ground (arith, update_status-claims tenant_id id existing.status t now db)

  apply-IsClaimed :
      (e : Event J) (db : Database J) (lead_id : String)
      → IsClaimed lead_id db
      → IsClaimed lead_id (apply e db).0
  unfolding apply
  apply-IsClaimed (transitions tenant_id id t now existing) db lead_id h =
      rw (write_transition-claims tenant_id id t now existing db) h
  apply-IsClaimed (claims_lead claim_id now c existing) db lead_id h =
      elim (write_claim-claims claim_id now c existing db) [
        | inl same ↦ rw same h
        | inr (e, free) ↦ rw e (claimed_by lead_id claim_id now c db.claims (inl h))
      ]

  run-IsClaimed :
      (es : List (Event J)) (db : Database J) (lead_id : String)
      → IsClaimed lead_id db
      → IsClaimed lead_id (run es db)
  unfolding run
  run-IsClaimed [] db lead_id h = h
  run-IsClaimed (e ∷ es) db lead_id h =
      run-IsClaimed es (apply e db).0 lead_id (apply-IsClaimed e db lead_id h)

  update_status_claims_none :
      (tenant_id id : String) (s t : LeadStatus) (now : ℕ) (db : Database J) (l : Lead J)
      (k : LeadClaim)
      → (update_status tenant_id id s t now db).1 ≢ claimed_lead l k
  unfolding update_status found_after
  update_status_claims_none tenant_id id s t now db l k e = ground arith

  write_claim_answered :
      (claim_id : String) (now : ℕ) (c : ClaimLeadCommand) (existing l : Lead J) (k : LeadClaim)
      (db : Database J)
      → (write_claim claim_id now c existing db).1 ≡ claimed_lead l k
      → (any (λ k. str_eq k.lead_id c.lead_id) db.claims ≡ false)
        × ((write_claim claim_id now c existing db).0.claims
            ≡ db.claims ++ new_claim claim_id now c ∷ [])
  unfolding write_claim with_claim
  write_claim_answered claim_id now c existing l k db e =
      let never =
        update_status_claims_none c.tenant_id c.lead_id existing.status claimed now db l k in
      (ground arith, ground (arith, never))

  -- Once a claim of a lead has been answered, no other claim of it ever is: not after any number of
  -- requests of any kind, and whatever state of the lead the later claim has read.
  pub write_claim_once :
      (claim_id claim_id' : String) (now now' : ℕ) (c c' : ClaimLeadCommand)
      (existing existing' l l' : Lead J) (k k' : LeadClaim) (es : List (Event J)) (db : Database J)
      → c'.lead_id ≡ c.lead_id
      → (write_claim claim_id now c existing db).1 ≡ claimed_lead l k
      → (write_claim claim_id' now' c' existing'
          (run es (write_claim claim_id now c existing db).0)).1
        ≢ claimed_lead l' k'
  write_claim_once claim_id claim_id' now now' c c' existing existing' l l' k k' es db same first
        second =
      let made = (write_claim_answered claim_id now c existing l k db first).1 in
      let db₁ = (write_claim claim_id now c existing db).0 in
      let taken : IsClaimed c.lead_id db₁ =
        rw made (claimed_by c.lead_id claim_id now c db.claims (inr refl)) in
      let free = (write_claim_answered claim_id' now' c' existing' l' k' (run es db₁) second).0 in
      ground (arith, run-IsClaimed es db₁ c.lead_id taken, same)

  apply-HasUniqueClaims :
      (e : Event J) (db : Database J) → HasUniqueClaims db → HasUniqueClaims (apply e db).0
  unfolding apply
  apply-HasUniqueClaims (transitions tenant_id id t now existing) db h lead_id =
      rw (write_transition-claims tenant_id id t now existing db) (h lead_id)
  apply-HasUniqueClaims (claims_lead claim_id now c existing) db h lead_id =
      elim (write_claim-claims claim_id now c existing db) [
        | inl same ↦ rw same (h lead_id)
        | inr (e, free) ↦ rw e (new_claim_alone lead_id claim_id now c db.claims (h lead_id) free)
      ]

  -- However requests overlap, no lead ever has two claims.
  pub run-HasUniqueClaims :
      (es : List (Event J)) (db : Database J) → HasUniqueClaims db → HasUniqueClaims (run es db)
  unfolding run
  run-HasUniqueClaims [] db h = h
  run-HasUniqueClaims (e ∷ es) db h =
      run-HasUniqueClaims es (apply e db).0 (apply-HasUniqueClaims e db h)
