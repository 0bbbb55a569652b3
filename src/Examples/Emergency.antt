-- ===== src/Examples/Emergency.antt =====
-- The rules, the matching and the on-call shifts of the emergency escalation at concrete sentences.
use ethixweb_ai_csr.Common.{
  ◌≡◌, refl, ◌↔◌, true, false, ◌||◌, [], ◌∷◌, none, some, String, any, join, str_eq, ◌&&◌,
}
use ethixweb_ai_csr.Emergency.Rules.{EmergencyRule, high, forward_call, priority_notify}
use ethixweb_ai_csr.Emergency.Escalation.Patterns.{mentions, default_patterns}
use ethixweb_ai_csr.Emergency.Words.{words}
use ethixweb_ai_csr.Emergency.Matching.{
  matches_pattern, matches_shortage, absence_prefixes, not_a_shortage, shortage_gap_words,
}
use ethixweb_ai_csr.Emergency.Shortage.{Tells, matches_shortage_iff}
use ethixweb_ai_csr.Emergency.OnCall.{
  OnCallRotation, OnCallShift, OnCallTables, priority_list, resolve_on_call,
  list_rotations_by_business, find_active_shifts, by_start, is_active_shift, phones_of,
}
use ethixweb_ai_csr.Emergency.OnCall.Reachable.{Serves}
use ethixweb_ai_csr.Emergency.Escalation.{
  EscalateEmergencyCommand, escalate_emergency, list_active_by_business, haystack_of, classify,
  resolve_transfer_destination,
}
use ethixweb_ai_csr.Emergency.Escalation.Floor.{
  escalate_emergency_decides, escalate_emergency_transfers,
}

matches_any_order : matches_pattern "a pipe burst in my basement" "burst pipe" ≡ true
unfolding matches_pattern absence_prefixes
matches_any_order = refl

matches_not_far_apart :
    matches_pattern "can you check the gas fitting, there's no leak" "gas leak" ≡ false
unfolding matches_pattern absence_prefixes
matches_not_far_apart = refl

matches_no_softener :
    matches_pattern "I don't have a water softener, do you install them" "don't have water" ≡ false
unfolding matches_pattern absence_prefixes shortage_gap_words
matches_no_softener = refl

matches_no_running_water : matches_pattern "There is no running water!" "no water" ≡ true
unfolding matches_pattern absence_prefixes shortage_gap_words not_a_shortage
matches_no_running_water = refl

matches_shortage_iff_example :
    (matches_shortage (words "water") (words "no") (words "no hot water here") ≡ true)
    ↔ Tells (words "water") (words "no") (words "no hot water here")
matches_shortage_iff_example =
    matches_shortage_iff (words "water") (words "no") (words "no hot water here")

abbrev rotation : OnCallRotation
rotation = record {
  id = "r";
  tenant_id = "t";
  business_id = "b";
  name = "nights";
  strategy = priority_list;
}

abbrev shift : OnCallShift
shift = record {
  id = "s";
  tenant_id = "t";
  rotation_id = "r";
  user_id = "u";
  starts_at = 10;
  ends_at = 20;
  phone_override = some "+15550100";
}

abbrev on_call : OnCallTables
on_call = record { rotations = rotation ∷ []; shifts = shift ∷ [] }

resolve_on_call_test : (resolve_on_call on_call "t" "b" 12).targets ≡ "+15550100" ∷ []
unfolding resolve_on_call list_rotations_by_business find_active_shifts by_start is_active_shift
    phones_of
resolve_on_call_test = refl

abbrev narrow_rule : EmergencyRule
narrow_rule = record {
  id = "1";
  tenant_id = "t";
  business_id = "b";
  keyword_or_pattern = "burst pipe";
  severity = high;
  escalation_action = forward_call;
  is_active = true;
}

abbrev says : String → EscalateEmergencyCommand
says description = record {
  tenant_id = "t";
  business_id = "b";
  call_id = "c";
  description = description;
  detected_keywords = none;
}

escalate_emergency_decides_example :
    ((escalate_emergency none (some on_call) 12 (says "I smell gas")).classification.is_emergency
      ≡ true)
    × ((escalate_emergency none (some on_call) 12 (says "I smell gas")).classification.action
        ≡ priority_notify)
    × ((escalate_emergency
          (some (narrow_rule ∷ []))
          (some on_call)
          12
          (says "I smell gas")).classification.is_emergency
        ≡ (any
              (λ r.
                (str_eq r.tenant_id "t" && str_eq r.business_id "b" && r.is_active)
                && matches_pattern (haystack_of (says "I smell gas")) r.keyword_or_pattern)
              (narrow_rule ∷ [])
            || mentions (haystack_of (says "I smell gas")) default_patterns))
escalate_emergency_decides_example =
    escalate_emergency_decides (narrow_rule ∷ []) (some on_call) 12 (says "I smell gas")

forwards :
    (escalate_emergency
      (some (narrow_rule ∷ []))
      (some on_call)
      12
      (says "a pipe burst")).transfer_destination
    ≡ some "+15550100"
unfolding escalate_emergency classify list_active_by_business matches_pattern absence_prefixes
    haystack_of join resolve_transfer_destination resolve_on_call
forwards = refl

escalate_emergency_transfers_example :
    ((escalate_emergency
        (some (narrow_rule ∷ []))
        (some on_call)
        12
        (says "a pipe burst")).classification.action
      ≡ forward_call)
    × (t : OnCallTables) × (some on_call ≡ some t)
    × Serves t "t" "b" 12 "+15550100"
escalate_emergency_transfers_example =
    escalate_emergency_transfers (some (narrow_rule ∷ [])) (some on_call) 12 (says "a pipe burst")
      "+15550100" forwards
