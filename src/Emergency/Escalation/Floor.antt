-- ===== src/Emergency/Escalation/Floor.antt =====
-- escalate-emergency.use-case.ts: what makes an emergency, and where its call goes.
use ethixweb_ai_csr.Common.{
  ℕ, ◌≡◌, refl, ap, ◌∙◌, ◌||◌, subst, Bool, true, List, [], ◌∷◌, Option, none, some, String, arith,
  any, find, All, is_some, ◌&&◌, str_eq,
}
use mathlib.Core.Option.{some_inj}
use ethixweb_ai_csr.Emergency.Rules.{
  EmergencyAction, EmergencyRule, DefaultRule, forward_call, priority_notify, standard_lead,
}
use ethixweb_ai_csr.Emergency.Defaults.{default_emergency_keywords}
use ethixweb_ai_csr.Emergency.Matching.{matches_pattern}
use ethixweb_ai_csr.Emergency.Escalation.Patterns.{
  mentions, default_patterns, any-filter, any-default,
}
use ethixweb_ai_csr.Emergency.OnCall.{OnCallTables}
use ethixweb_ai_csr.Emergency.OnCall.Reachable.{Serves, resolve_on_call_reaches}
use ethixweb_ai_csr.Emergency.Escalation.{
  EscalateEmergencyCommand, Classification, list_active_by_business, haystack_of, by_default,
  by_rule, fail_safe, configured_match, default_match, classify, first_target,
  resolve_transfer_destination, with_destination, escalate_emergency,
}

-- `find` finds an element exactly if some element passes.
is_some-find {ℓ} : {A : Type ℓ} (p : A → Bool) (xs : List A) → is_some (find p xs) ≡ any p xs
is_some-find p [] = refl
is_some-find p (x ∷ xs) = ground (arith, is_some-find p xs)

is_emergency-by :
    (o : Option EmergencyRule) (d : Option DefaultRule)
    → (by_rule o (by_default d)).is_emergency ≡ (is_some o || is_some d)
unfolding by_rule by_default
is_emergency-by (some r) d = refl
is_emergency-by none (some d) = refl
is_emergency-by none none = refl

with_destination-keeps :
    (c : Classification) (a : EmergencyAction) (target : Option String)
    → (with_destination c a target).classification ≡ c
unfolding with_destination
with_destination-keeps c forward_call target = refl
with_destination-keeps c priority_notify target = refl
with_destination-keeps c standard_lead target = refl

with_destination-some :
    (c : Classification) (a : EmergencyAction) (target : Option String) (phone : String)
    → (with_destination c a target).transfer_destination ≡ some phone
    → (a ≡ forward_call) × (target ≡ some phone)
unfolding with_destination
with_destination-some c forward_call target phone e = (refl, e)
with_destination-some c priority_notify target phone e = ground arith
with_destination-some c standard_lead target phone e = ground arith

classify-is_emergency :
    (rules : List EmergencyRule) (c : EscalateEmergencyCommand)
    → (classify (some rules) c).is_emergency ≡ (
        any
          (λ r.
            (str_eq r.tenant_id c.tenant_id && str_eq r.business_id c.business_id && r.is_active)
            && matches_pattern (haystack_of c) r.keyword_or_pattern)
          rules
        || mentions (haystack_of c) default_patterns)
unfolding classify configured_match default_match list_active_by_business
classify-is_emergency rules c =
    let p = λ (r : EmergencyRule). matches_pattern (haystack_of c) r.keyword_or_pattern in
    let q = λ (d : DefaultRule). matches_pattern (haystack_of c) d.pattern in
    let own = λ (r : EmergencyRule).
      str_eq r.tenant_id c.tenant_id && str_eq r.business_id c.business_id && r.is_active in
    let active = list_active_by_business rules c.tenant_id c.business_id in
    is_emergency-by (find p active) (find q default_emergency_keywords)
    ∙ ap (λ b. is_some (find p active) || b) (is_some-find q default_emergency_keywords)
    ∙ ap (λ b. b || any q default_emergency_keywords) (is_some-find p active)
    ∙ ap (λ b. b || any q default_emergency_keywords) (any-filter p own rules)
    ∙ ap (λ b. any (λ r. own r && p r) rules || b) (any-default (haystack_of c))

escalate_emergency-keeps :
    (rules : Option (List EmergencyRule)) (tables : Option OnCallTables) (at : ℕ)
    (c : EscalateEmergencyCommand)
    → (escalate_emergency rules tables at c).classification ≡ classify rules c
unfolding escalate_emergency
escalate_emergency-keeps rules tables at c = with_destination-keeps (classify rules c) _ _

-- If the rules cannot be read, the result is an emergency to notify with priority. Otherwise it is an
-- emergency exactly if a rule that is of the tenant and of its business, and is active, matches what the
-- caller said, or one of the default patterns does, each of which is listed here, whatever rules are
-- configured. The on-call tables, and a failure to read them, play no part in either.
pub escalate_emergency_decides :
    (rules : List EmergencyRule) (tables : Option OnCallTables) (at : ℕ)
    (c : EscalateEmergencyCommand)
    → ((escalate_emergency none tables at c).classification.is_emergency ≡ true)
      × ((escalate_emergency none tables at c).classification.action ≡ priority_notify)
      × ((escalate_emergency (some rules) tables at c).classification.is_emergency ≡ (
          any
            (λ r.
              (str_eq r.tenant_id c.tenant_id && str_eq r.business_id c.business_id && r.is_active)
              && matches_pattern (haystack_of c) r.keyword_or_pattern)
            rules
          || mentions (haystack_of c) default_patterns))
unfolding classify fail_safe
escalate_emergency_decides rules tables at c = (
  ap (λ k. k.is_emergency) (escalate_emergency-keeps none tables at c),
  ap (λ k. k.action) (escalate_emergency-keeps none tables at c),
  ap (λ k. k.is_emergency) (escalate_emergency-keeps (some rules) tables at c)
      ∙ classify-is_emergency rules c,
)

first_target-All {κ} :
    (P : String → Type κ) (ps : List String) (phone : String)
    → All P ps
    → first_target ps ≡ some phone
    → P phone
unfolding first_target
first_target-All P [] phone h e = ground arith
first_target-All P (p ∷ ps) phone h e = subst P (some_inj.0 e) h.0

resolve_transfer_destination_lem :
    (tables : Option OnCallTables) (at : ℕ) (c : EscalateEmergencyCommand) (phone : String)
    → resolve_transfer_destination tables at c ≡ some phone
    → (t : OnCallTables) × (tables ≡ some t) × Serves t c.tenant_id c.business_id at phone
unfolding resolve_transfer_destination
resolve_transfer_destination_lem none at c phone e = ground arith
resolve_transfer_destination_lem (some t) at c phone e = (
  t,
  refl,
  first_target-All (Serves t c.tenant_id c.business_id at) _ phone
      (resolve_on_call_reaches t c.tenant_id c.business_id at) e,
)

-- If a result names a number to transfer to, its action is to forward the call, the on-call tables
-- could be read, and the number is that of a shift of the tenant's business that is running or still
-- to come.
pub escalate_emergency_transfers :
    (rules : Option (List EmergencyRule)) (tables : Option OnCallTables) (at : ℕ)
    (c : EscalateEmergencyCommand) (phone : String)
    → (escalate_emergency rules tables at c).transfer_destination ≡ some phone
    → ((escalate_emergency rules tables at c).classification.action ≡ forward_call)
      × (t : OnCallTables) × (tables ≡ some t)
      × Serves t c.tenant_id c.business_id at phone
unfolding escalate_emergency
escalate_emergency_transfers rules tables at c phone e =
    let h = with_destination-some (classify rules c) _ _ phone e in
    let r = resolve_transfer_destination_lem tables at c phone h.1 in
    (ap (λ k. k.action) (escalate_emergency-keeps rules tables at c) ∙ h.0, r.0, r.1, r.2)
