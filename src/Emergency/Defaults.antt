-- ===== src/Emergency/Defaults.antt =====
-- `DEFAULT_EMERGENCY_KEYWORDS` of
-- apps/core-api/src/modules/emergency-rules/domain/emergency-rule.entity.ts, in its order.
use ethixweb_ai_csr.Common.{List, [], ◌∷◌, String}
use ethixweb_ai_csr.Emergency.Rules.{
  DefaultRule, EmergencySeverity, EmergencyAction, critical, high, medium, forward_call,
  priority_notify,
}

abbrev rule : String → EmergencySeverity → EmergencyAction → DefaultRule
rule pattern severity action = record { pattern = pattern; severity = severity; action = action }

unfoldable pub default_emergency_keywords : List DefaultRule
default_emergency_keywords =
    rule "burst pipe" critical forward_call
    ∷ rule "pipe burst" critical forward_call
    ∷ rule "gas leak" critical forward_call
    ∷ rule "smell gas" critical forward_call
    ∷ rule "smell of gas" critical forward_call
    ∷ rule "sewer backup" critical forward_call
    ∷ rule "sewage backup" critical forward_call
    ∷ rule "flooding" critical forward_call
    ∷ rule "exploded" critical forward_call
    ∷ rule "blew up" critical forward_call
    ∷ rule "flooded" critical forward_call
    ∷ rule "water everywhere" critical forward_call
    ∷ rule "smells gas" critical forward_call
    ∷ rule "smells like gas" critical forward_call
    ∷ rule "smell like gas" critical forward_call
    ∷ rule "gas smell" critical forward_call
    ∷ rule "smelling gas" critical forward_call
    ∷ rule "sewage coming" critical forward_call
    ∷ rule "sewage backing" critical forward_call
    ∷ rule "sewer backing" critical forward_call
    ∷ rule "sewage overflowing" critical forward_call
    ∷ rule "sewage shower" critical forward_call
    ∷ rule "water pouring" critical forward_call
    ∷ rule "water gushing" critical forward_call
    ∷ rule "water spraying" critical forward_call
    ∷ rule "water ankles" critical forward_call
    ∷ rule "water knees" critical forward_call
    ∷ rule "ceiling collapsing" critical forward_call
    ∷ rule "ceiling caving" critical forward_call
    ∷ rule "burning smell" critical forward_call
    ∷ rule "smelling burning" critical forward_call
    ∷ rule "smells burning" critical forward_call
    ∷ rule "burning odor" critical forward_call
    ∷ rule "electrical smell" critical forward_call
    ∷ rule "smoke coming" critical forward_call
    ∷ rule "sparking" critical forward_call
    ∷ rule "water flowing" critical forward_call
    ∷ rule "water is flowing" critical forward_call
    ∷ rule "water spreading" critical forward_call
    ∷ rule "line burst" critical forward_call
    ∷ rule "hose burst" critical forward_call
    ∷ rule "filling house" critical forward_call
    ∷ rule "filling kitchen" critical forward_call
    ∷ rule "filling basement" critical forward_call
    ∷ rule "filling bathroom" critical forward_call
    ∷ rule "filling hallway" critical forward_call
    ∷ rule "losing money" high priority_notify
    ∷ rule "out of business" high priority_notify
    ∷ rule "can't operate" high priority_notify
    ∷ rule "not able to operate" high priority_notify
    ∷ rule "no hot water" high priority_notify
    ∷ rule "no water" high priority_notify
    ∷ rule "don't have water" high priority_notify
    ∷ rule "without water" high priority_notify
    ∷ rule "overflowing toilet" high priority_notify
    ∷ rule "toilet overflowing" high priority_notify
    ∷ rule "water heater leaking" medium priority_notify
    ∷ []
