-- ===== src/Leads.antt =====
-- apps/core-api/src/modules/leads: domain/lead-lifecycle.ts, lead.entity.ts and lead-claim.entity.ts, the
-- use-cases transition-lead-status, claim-lead and handle-lead-converted-from-crm of application/, and
-- their reads and writes in infrastructure/. A use-case runs in one transaction: it commits if it
-- answers, and changes nothing if it throws. Each is split into the read of the lead and the rest,
-- which runs on the database as it is by then.
pub mod Statuses
pub mod Legal
pub mod Claims
use ethixweb_ai_csr.Common.{
  ℕ, ◌≡◌, Bool, true, false, ◌&&◌, List, [], ◌∷◌, ◌++◌, Option, none, some, String, map, find, any,
  str_eq, if◌then◌else◌, ◌==◌,
}

-- `new_lead` is the source's "new".
pub data LeadStatus : Type 0 where
  new_lead notified claimed converted_to_job expired duplicate abandoned : LeadStatus

-- The place of a status in the source's table.
abbrev pub position : LeadStatus → ℕ
position new_lead = 0
position notified = 1
position claimed = 2
position converted_to_job = 3
position expired = 4
position duplicate = 5
position abandoned = 6

-- `===` on statuses.
abbrev pub status_eq : LeadStatus → LeadStatus → Bool
status_eq s t = position s == position t

-- `ALLOWED_TRANSITIONS`
unfoldable pub allowed_transitions : LeadStatus → List LeadStatus
allowed_transitions new_lead = notified ∷ duplicate ∷ abandoned ∷ []
allowed_transitions notified = claimed ∷ expired ∷ duplicate ∷ abandoned ∷ []
allowed_transitions claimed = converted_to_job ∷ expired ∷ abandoned ∷ []
allowed_transitions converted_to_job = []
allowed_transitions expired = []
allowed_transitions duplicate = []
allowed_transitions abandoned = []

-- `assertValidLeadStatusTransition`: whether it does not throw.
unfoldable pub is_valid_transition : LeadStatus → LeadStatus → Bool
unfolding allowed_transitions
is_valid_transition start target =
    if status_eq start target
    then true
    else any (λ s. status_eq s target) (allowed_transitions start)

-- `J` is the type of the qualification data, JSON that is not looked into.
pub record Lead (J : Type 0) : Type 0 where
  pub id : String
  pub tenant_id : String
  pub business_id : String
  pub customer_id : String
  pub call_id : String
  pub crm_lead_id : Option String
  pub problem_summary : String
  pub priority : String
  pub lead_type : String
  pub status : LeadStatus
  pub qualification_data : J
  pub created_at : ℕ
  pub updated_at : ℕ

pub record LeadClaim : Type 0 where
  pub id : String
  pub tenant_id : String
  pub lead_id : String
  pub claimed_by_user_id : String
  pub claim_method : String
  pub claimed_at : ℕ

pub record Database (J : Type 0) : Type 0 where
  pub leads : List (Lead J)
  pub claims : List LeadClaim

pub record ClaimLeadCommand : Type 0 where
  pub tenant_id : String
  pub lead_id : String
  pub claimed_by_user_id : String
  pub claim_method : String

-- What a use-case returns or throws.
pub data Answer (J : Type 0) : Type 0 where
  transitioned : Lead J → Answer J
  claimed_lead : Lead J → LeadClaim → Answer J
  no_local_lead : Answer J
  lead_not_found lead_already_claimed concurrent_lead_modification : String → Answer J
  illegal_transition : LeadStatus → LeadStatus → Answer J

has_crm_id : String → Option String → Bool
has_crm_id crm_lead_id none = false
has_crm_id crm_lead_id (some k) = str_eq k crm_lead_id

unfoldable pub new_claim : String → ℕ → ClaimLeadCommand → LeadClaim
new_claim claim_id now c = record {
  id = claim_id;
  tenant_id = c.tenant_id;
  lead_id = c.lead_id;
  claimed_by_user_id = c.claimed_by_user_id;
  claim_method = c.claim_method;
  claimed_at = now;
}

module _ {J : Type 0} where
  abbrev pub is_row : String → String → Lead J → Bool
  is_row tenant_id id l = str_eq l.id id && str_eq l.tenant_id tenant_id

  unfoldable pub find_by_id : String → String → Database J → Option (Lead J)
  find_by_id tenant_id id db = find (is_row tenant_id id) db.leads

  unfoldable pub find_by_crm_lead_id : String → String → Database J → Option (Lead J)
  unfolding has_crm_id
  find_by_crm_lead_id tenant_id crm_lead_id db =
      find (λ l. has_crm_id crm_lead_id l.crm_lead_id && str_eq l.tenant_id tenant_id) db.leads

  -- `updateMany` with the compare-and-swap on the status that was read; `now` is the update's time.
  unfoldable pub swap_row : String → String → LeadStatus → LeadStatus → ℕ → Lead J → Lead J
  swap_row tenant_id id from_status to_status now l =
      if is_row tenant_id id l && status_eq l.status from_status
      then record l { status = to_status; updated_at = now }
      else l

  found_after : String → Option (Lead J) → Database J → Database J → Database J × Answer J
  found_after id (some l) db db' = (db', transitioned l)
  found_after id none db db' = (db, lead_not_found id)

  unfoldable pub update_status :
      String → String → LeadStatus → LeadStatus → ℕ → Database J → Database J × Answer J
  unfolding found_after
  update_status tenant_id id from_status to_status now db =
      let db' = record db {
        leads = map (swap_row tenant_id id from_status to_status now) db.leads;
      } in
      if any (λ l. is_row tenant_id id l && status_eq l.status from_status) db.leads
      then found_after id (find_by_id tenant_id id db') db db'
      else (db, concurrent_lead_modification id)

  -- The rest of `TransitionLeadStatusUseCase` for the lead that it has read.
  unfoldable pub write_transition :
      String → String → LeadStatus → ℕ → Lead J → Database J → Database J × Answer J
  write_transition tenant_id lead_id to_status now existing db =
      if is_valid_transition existing.status to_status
      then update_status tenant_id lead_id existing.status to_status now db
      else (db, illegal_transition existing.status to_status)

  read_transition :
      String → String → LeadStatus → ℕ → Option (Lead J) → Database J → Database J × Answer J
  unfolding write_transition
  read_transition tenant_id lead_id to_status now none db = (db, lead_not_found lead_id)
  read_transition tenant_id lead_id to_status now (some existing) db =
      write_transition tenant_id lead_id to_status now existing db

  -- `TransitionLeadStatusUseCase.execute`, with no other request in between.
  unfoldable pub transition_lead_status :
      String → String → LeadStatus → ℕ → Database J → Database J × Answer J
  unfolding read_transition
  transition_lead_status tenant_id lead_id to_status now db =
      read_transition tenant_id lead_id to_status now (find_by_id tenant_id lead_id db) db

  -- The end of a claim: an answer is committed with the claim's row, an exception rolls it back.
  with_claim : LeadClaim → Database J → Database J × Answer J → Database J × Answer J
  with_claim claim db (db', transitioned l) =
      (record db' { claims = db.claims ++ claim ∷ [] }, claimed_lead l claim)
  with_claim claim db (db', a) = (db, a)

  -- The rest of `ClaimLeadUseCase` for the lead that it has read; `claims` has a unique index on the lead.
  unfoldable pub write_claim :
      String → ℕ → ClaimLeadCommand → Lead J → Database J → Database J × Answer J
  unfolding with_claim
  write_claim claim_id now c existing db =
      if is_valid_transition existing.status claimed
      then (if any (λ k. str_eq k.lead_id c.lead_id) db.claims
          then (db, lead_already_claimed c.lead_id)
          else with_claim (new_claim claim_id now c) db
              (update_status c.tenant_id c.lead_id existing.status claimed now db))
      else (db, illegal_transition existing.status claimed)

  read_claim : String → ℕ → ClaimLeadCommand → Option (Lead J) → Database J → Database J × Answer J
  unfolding write_claim
  read_claim claim_id now c none db = (db, lead_not_found c.lead_id)
  read_claim claim_id now c (some existing) db = write_claim claim_id now c existing db

  -- `ClaimLeadUseCase.execute`, with no other request in between.
  unfoldable pub claim_lead : String → ℕ → ClaimLeadCommand → Database J → Database J × Answer J
  unfolding read_claim
  claim_lead claim_id now c db = read_claim claim_id now c (find_by_id c.tenant_id c.lead_id db) db

  read_converted : String → ℕ → Option (Lead J) → Database J → Database J × Answer J
  unfolding write_transition
  read_converted tenant_id now none db = (db, no_local_lead)
  read_converted tenant_id now (some lead) db =
      write_transition tenant_id lead.id converted_to_job now lead db

  -- `HandleLeadConvertedFromCrmUseCase.execute`, with no other request in between.
  unfoldable pub handle_lead_converted_from_crm :
      String → String → ℕ → Database J → Database J × Answer J
  unfolding read_converted
  handle_lead_converted_from_crm tenant_id crm_lead_id now db =
      read_converted tenant_id now (find_by_crm_lead_id tenant_id crm_lead_id db) db
