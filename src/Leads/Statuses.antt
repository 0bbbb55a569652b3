-- ===== src/Leads/Statuses.antt =====
-- lead-lifecycle.ts: the statuses.
use ethixweb_ai_csr.Common.{ℕ, ◌≡◌, refl, sym, ap, ◌∙◌, true, [], arith, ◌↔◌, if◌then◌else◌, ◌==◌}
use ethixweb_ai_csr.Leads.{
  LeadStatus, new_lead, notified, claimed, converted_to_job, expired, duplicate, abandoned,
  position, status_eq, is_valid_transition, allowed_transitions,
}

at_position : ℕ → LeadStatus
at_position n =
    if n == 0
    then new_lead
    else if n == 1
    then notified
    else if n == 2
    then claimed
    else if n == 3
    then converted_to_job
    else if n == 4
    then expired
    else if n == 5
    then duplicate
    else abandoned

at_position_lem : (s : LeadStatus) → at_position (position s) ≡ s
unfolding at_position
at_position_lem new_lead = refl
at_position_lem notified = refl
at_position_lem claimed = refl
at_position_lem converted_to_job = refl
at_position_lem expired = refl
at_position_lem duplicate = refl
at_position_lem abandoned = refl

position_injective : (s t : LeadStatus) → position s ≡ position t → s ≡ t
position_injective s t e = sym (at_position_lem s) ∙ ap at_position e ∙ at_position_lem t

pub status_eq_iff : (s t : LeadStatus) → (status_eq s t ≡ true) ↔ (s ≡ t)
status_eq_iff s t = (λ e. position_injective s t (ground arith), λ e. rw e (ground arith))

-- From a status without a successor no other can be reached.
pub terminal_stays :
    (s t : LeadStatus) → allowed_transitions s ≡ [] → is_valid_transition s t ≡ true → s ≡ t
unfolding is_valid_transition
terminal_stays s t none_allowed valid = ground (arith, status_eq_iff s t)

pub is_valid_transition_self : (s : LeadStatus) → is_valid_transition s s ≡ true
unfolding is_valid_transition
is_valid_transition_self s = ground arith
