-- ===== src/Emergency/Escalation.antt =====
-- EscalateEmergencyUseCase of
-- apps/core-api/src/modules/emergency-rules/application/escalate-emergency.use-case.ts, with the query of
-- infrastructure/prisma-emergency-rule.repository.ts beside it. A database that cannot be read, where
-- the source throws, is `none`. The logger is left out.
pub mod Floor
pub mod Patterns
use ethixweb_ai_csr.Common.{
  Bool, true, false, ◌&&◌, List, [], ◌∷◌, Option, none, some, String, filter, find, str_eq, join, ℕ,
}
use ethixweb_ai_csr.Emergency.Rules.{
  EmergencySeverity, EmergencyAction, EmergencyRule, DefaultRule, medium, forward_call,
  priority_notify, standard_lead,
}
use ethixweb_ai_csr.Emergency.Defaults.{default_emergency_keywords}
use ethixweb_ai_csr.Emergency.Matching.{matches_pattern}
use ethixweb_ai_csr.Emergency.OnCall.{OnCallTables, ResolveOnCallResult, resolve_on_call}

pub record EscalateEmergencyCommand : Type 0 where
  pub tenant_id : String
  pub business_id : String
  pub call_id : String
  pub description : String
  pub detected_keywords : Option (List String)

pub record Classification : Type 0 where
  pub is_emergency : Bool
  pub severity : EmergencySeverity
  pub action : EmergencyAction
  pub matched_pattern : Option String

pub record EscalateEmergencyResult : Type 0 where
  pub classification : Classification
  pub transfer_destination : Option String

unfoldable pub list_active_by_business : List EmergencyRule → String → String → List EmergencyRule
list_active_by_business rules tenant_id business_id =
    filter (λ r. str_eq r.tenant_id tenant_id && str_eq r.business_id business_id && r.is_active)
      rules

keywords_of : Option (List String) → List String
keywords_of none = []
keywords_of (some keywords) = keywords

-- The lower case is taken by `matches_pattern`, which takes it once more in the source.
unfoldable pub haystack_of : EscalateEmergencyCommand → String
unfolding keywords_of
haystack_of c = join " " (c.description ∷ keywords_of c.detected_keywords)

by_default : Option DefaultRule → Classification
by_default none = record {
  is_emergency = false;
  severity = medium;
  action = standard_lead;
  matched_pattern = none;
}
by_default (some entry) = record {
  is_emergency = true;
  severity = entry.severity;
  action = entry.action;
  matched_pattern = some entry.pattern;
}

by_rule : Option EmergencyRule → Classification → Classification
by_rule none otherwise = otherwise
by_rule (some r) otherwise = record {
  is_emergency = true;
  severity = r.severity;
  action = r.escalation_action;
  matched_pattern = some r.keyword_or_pattern;
}

-- What the `catch` returns.
unfoldable pub fail_safe : Classification
fail_safe = record {
  is_emergency = true;
  severity = medium;
  action = priority_notify;
  matched_pattern = none;
}

unfoldable pub configured_match : List EmergencyRule → String → Option EmergencyRule
configured_match rules haystack = find (λ r. matches_pattern haystack r.keyword_or_pattern) rules

unfoldable pub default_match : String → Option DefaultRule
default_match haystack = find (λ d. matches_pattern haystack d.pattern) default_emergency_keywords

unfoldable pub classify : Option (List EmergencyRule) → EscalateEmergencyCommand → Classification
unfolding by_rule by_default configured_match default_match
classify none c = fail_safe
classify (some rules) c =
    by_rule
      (configured_match (list_active_by_business rules c.tenant_id c.business_id) (haystack_of c))
      (by_default (default_match (haystack_of c)))

first_target : List String → Option String
first_target [] = none
first_target (p ∷ ps) = some p

unfoldable pub resolve_transfer_destination :
    Option OnCallTables → ℕ → EscalateEmergencyCommand → Option String
unfolding first_target
resolve_transfer_destination none at c = none
resolve_transfer_destination (some t) at c =
    first_target (resolve_on_call t c.tenant_id c.business_id at).targets

with_destination : Classification → EmergencyAction → Option String → EscalateEmergencyResult
with_destination c forward_call target = record {
  classification = c;
  transfer_destination = target;
}
with_destination c _ target = record { classification = c; transfer_destination = none }

unfoldable pub escalate_emergency :
    Option (List EmergencyRule)
    → Option OnCallTables
    → ℕ
    → EscalateEmergencyCommand
    → EscalateEmergencyResult
unfolding with_destination
escalate_emergency rules tables at c =
    let classification = classify rules c in
    with_destination classification classification.action (resolve_transfer_destination tables at c)
