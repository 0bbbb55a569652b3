-- ===== src/Examples/Leads.antt =====
-- The leads of one tenant, claimed and transitioned.
use ethixweb_ai_csr.Common.{ℕ, ◌≡◌, ◌≢◌, refl, true, [], ◌∷◌, none, some, String}
use ethixweb_ai_csr.Leads.{
  LeadStatus, notified, claimed, expired, Lead, Database, ClaimLeadCommand, claimed_lead,
  find_by_id, is_valid_transition, allowed_transitions, new_claim, write_claim, update_status,
  swap_row,
}
use ethixweb_ai_csr.Leads.Legal.{transitions, apply, run, apply_legal}
use ethixweb_ai_csr.Leads.Claims.{write_claim_once}

abbrev lead : LeadStatus → Lead ℕ
lead status = record {
  id = "1";
  tenant_id = "t";
  business_id = "b";
  customer_id = "c";
  call_id = "k";
  crm_lead_id = none;
  problem_summary = "leaking tap";
  priority = "routine";
  lead_type = "residential";
  status = status;
  qualification_data = 0;
  created_at = 1;
  updated_at = 1;
}

abbrev table : LeadStatus → Database ℕ
table status = record { leads = lead status ∷ []; claims = [] }

abbrev claim_by : String → ClaimLeadCommand
claim_by user = record {
  tenant_id = "t";
  lead_id = "1";
  claimed_by_user_id = user;
  claim_method = "dashboard";
}

table_found : (status : LeadStatus) → find_by_id "t" "1" (table status) ≡ some (lead status)
unfolding find_by_id
table_found status = refl

apply_legal_example :
    (l' : Lead ℕ) × (find_by_id "t" "1"
        (apply (transitions "t" "1" claimed 5 (lead notified)) (table notified)).0
      ≡ some l')
    × (is_valid_transition notified l'.status ≡ true)
apply_legal_example =
    apply_legal (transitions "t" "1" claimed 5 (lead notified)) (table notified) "t" "1"
      (lead notified) (table_found notified)

expired_last : allowed_transitions expired ≡ []
unfolding allowed_transitions
expired_last = refl

claim_answered :
    (write_claim "x" 5 (claim_by "ann") (lead notified) (table notified)).1
    ≡ claimed_lead (record (lead claimed) { updated_at = 5 }) (new_claim "x" 5 (claim_by "ann"))
unfolding write_claim update_status swap_row is_valid_transition allowed_transitions find_by_id
claim_answered = refl

write_claim_once_example :
    (write_claim "y" 6
      (claim_by "bob")
      (lead notified)
      (run [] (write_claim "x" 5 (claim_by "ann") (lead notified) (table notified)).0)).1
    ≢ claimed_lead (lead claimed) (new_claim "y" 6 (claim_by "bob"))
write_claim_once_example =
    write_claim_once "x" "y" 5 6 (claim_by "ann") (claim_by "bob") (lead notified) (lead notified)
      (record (lead claimed) { updated_at = 5 }) (lead claimed) (new_claim "x" 5 (claim_by "ann"))
      (new_claim "y" 6 (claim_by "bob")) [] (table notified) refl claim_answered
