-- ===== src/Emergency/Rules.antt =====
-- The types of apps/core-api/src/modules/emergency-rules/domain/emergency-rule.entity.ts
use ethixweb_ai_csr.Common.{Bool, String}

pub data EmergencySeverity : Type 0 where
  critical high medium : EmergencySeverity

pub data EmergencyAction : Type 0 where
  forward_call priority_notify standard_lead : EmergencyAction

-- The severity and the action are texts in the source that are cast to the two types on use.
pub record EmergencyRule : Type 0 where
  pub id : String
  pub tenant_id : String
  pub business_id : String
  pub keyword_or_pattern : String
  pub severity : EmergencySeverity
  pub escalation_action : EmergencyAction
  pub is_active : Bool

pub record DefaultRule : Type 0 where
  pub pattern : String
  pub severity : EmergencySeverity
  pub action : EmergencyAction
