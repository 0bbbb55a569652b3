-- ===== src/Conversation/Tools/Leads.antt =====
-- handle-turn.use-case.ts: what the broker is asked for when the model creates a lead.
use ethixweb_ai_csr.Common.{
  ◌≡◌, refl, inl, inr, true, false, Bool-cases, Option-cases, List, Option, none, some, String, any,
  or_default, str_eq, eq_refl, arith,
}
use ethixweb_ai_csr.Conversation.Records.{
  Text, AiToolCallRequest, Conversation, forward_call, priority_notify, EmergencyAction,
}
use ethixweb_ai_csr.Conversation.Json.{Json, get_text, get_text-set_text}
use ethixweb_ai_csr.Conversation.Tools.{
  Gates, truthy, priority_of, with_summary, with_argument, with_identifier, with_own_identifiers,
  with_rule_priority, with_address_flag, prepared,
}
use ethixweb_ai_csr.Conversation.Tools.Gating.{gate, lead_gate-none, mentions, returned_by_a_tool}
use ethixweb_ai_csr.Conversation.Tools.Runs.{run_tool, run_tool-sent, as_transfer}

-- A lead is an emergency exactly where the rules say so.
abbrev pub IsRanked : Option EmergencyAction → Option String → Type 0
IsRanked none priority = (s : String) × (priority ≡ some s) × (str_eq s "emergency" ≡ false)
IsRanked (some forward_call) priority = priority ≡ some "emergency"
IsRanked (some priority_notify) priority = priority ≡ some "urgent"

priority_of-IsRanked :
    (action : Option EmergencyAction) (asked : String)
    → IsRanked action (some (priority_of action asked))
unfolding priority_of
priority_of-IsRanked none asked = elim (Bool-cases (str_eq asked "emergency")) [
  | inl emergency ↦ ("urgent", rw emergency refl, refl)
  | inr another ↦ (asked, rw another refl, another)
]
priority_of-IsRanked (some forward_call) asked = refl
priority_of-IsRanked (some priority_notify) asked = refl

module _ {O : Type 0} where
  -- The customer of a lead is the one of the call, or, where the call has none, one whose identifier a tool
  -- has returned on this call.
  abbrev pub IsKnown : Conversation (Json O) → Option String → Option String → Type 0
  IsKnown conversation (some own) given = given ≡ some own
  IsKnown conversation none given =
      (id : String) × (given ≡ some id) × (any (mentions id) conversation.messages ≡ true)

  argument_kept :
      (key other_key t : String) (call : AiToolCallRequest (Json O))
      → str_eq key other_key ≡ false
      → get_text other_key (with_argument key t call).arguments ≡ get_text other_key call.arguments
  unfolding with_argument
  argument_kept key other_key t call apart =
      rw (get_text-set_text key other_key t call.arguments, apart) refl

  argument_set :
      (key t : String) (call : AiToolCallRequest (Json O))
      → get_text key (with_argument key t call).arguments ≡ some t
  unfolding with_argument
  argument_set key t call = rw (get_text-set_text key key t call.arguments, eq_refl key) refl

  with_summary-get_text :
      (gates : Gates O) (conversation : Conversation (Json O)) (key : String)
      (given : Option String) (call : AiToolCallRequest (Json O))
      → str_eq "problem_summary" key ≡ false
      → get_text key (with_summary conversation gates given call).arguments
        ≡ get_text key call.arguments
  unfolding with_summary
  with_summary-get_text gates conversation key none call apart = refl
  with_summary-get_text gates conversation key (some given) call apart =
      argument_kept "problem_summary" key (gates.summary_for_the_team conversation given) call apart

  abbrev pub create_lead : String → Json O → AiToolCallRequest (Json O)
  create_lead id arguments = record { id = id; name = "createLead"; arguments = arguments }

  -- The request with an identifier of the call's own, and with the priority set on it.
  abbrev identified : Option String → String → Json O → AiToolCallRequest (Json O)
  identified own id arguments = with_identifier "customer_id" own (create_lead id arguments)

  abbrev ranked : Option EmergencyAction → AiToolCallRequest (Json O) → AiToolCallRequest (Json O)
  ranked action call =
      with_argument "priority"
        (priority_of action (or_default (get_text "priority" call.arguments) "routine")) call

  prepared-get_text :
      (gates : Gates O) (conversation : Conversation (Json O)) (own : Option String)
      (id key : String) (arguments : Json O)
      → str_eq "problem_summary" key ≡ false
      → get_text key
          (with_address_flag gates conversation
            (with_rule_priority conversation (identified own id arguments))).arguments
        ≡ get_text key
            (ranked conversation.strongest_emergency_action (identified own id arguments)).arguments
  unfolding with_address_flag with_rule_priority with_argument with_identifier
  prepared-get_text gates conversation none id key arguments apart =
      let call = ranked conversation.strongest_emergency_action (identified none id arguments) in
      with_summary-get_text gates conversation key (get_text "problem_summary" call.arguments) call
        apart
  prepared-get_text gates conversation (some own) id key arguments apart =
      let call =
        ranked conversation.strongest_emergency_action (identified (some own) id arguments) in
      with_summary-get_text gates conversation key (get_text "problem_summary" call.arguments) call
        apart

  ranked-IsRanked :
      (action : Option EmergencyAction) (call : AiToolCallRequest (Json O))
      → IsRanked action (get_text "priority" (ranked action call).arguments)
  ranked-IsRanked action call =
      let asked = or_default (get_text "priority" call.arguments) "routine" in
      rw (argument_set "priority" (priority_of action asked) call)
        (priority_of-IsRanked action asked)

  identified-IsKnown :
      (conversation : Conversation (Json O)) (own : Option String) (id : String)
      (arguments : Json O)
      → (own ≡ none → returned_by_a_tool conversation (get_text "customer_id" arguments) ≡ true)
      → IsKnown conversation own (get_text "customer_id" (identified own id arguments).arguments)
  unfolding with_identifier returned_by_a_tool
  identified-IsKnown conversation none id arguments h =
      elim (Option-cases (get_text "customer_id" arguments)) [
        | inl missing ↦ absurd (let e = rw missing at (h refl) in cc)
        | inr (given, e) ↦ (given, e, ground (arith, rw e at (h refl)))
      ]
  identified-IsKnown conversation (some own) id arguments h =
      argument_set "customer_id" own (create_lead id arguments)

  -- What is sent when a lead is created.
  pub record IsBacked (gates : Gates O) (conversation : Conversation (Json O))
      (sent : AiToolCallRequest (Json O)) : Type 0 where
    pub known :
        IsKnown conversation
          (truthy conversation.customer_id)
          (get_text "customer_id" sent.arguments)
    pub ranked :
        IsRanked conversation.strongest_emergency_action (get_text "priority" sent.arguments)
    pub detailed :
        conversation.customer_details_on_file ≡ some false
        → gates.is_hard_emergency conversation ≡ true

  -- Whatever arguments the model gives for a lead, the broker is asked to create it only with the customer
  -- of the call or, where there is none, with a customer whose identifier a tool's result of the call
  -- contains; its priority is "emergency" exactly where the strongest action of the rules is a forwarded
  -- call, and "urgent" where it is a notification; and a customer without details on file gets one only in a
  -- hard emergency.
  pub run_tool-IsBacked :
      (gates : Gates O) (conversation : Conversation (Json O)) (id : String) (arguments : Json O)
      (current_turn_text : Text) (gate_rejections : List String) (sent : AiToolCallRequest (Json O))
      → (run_tool gates conversation
          (create_lead id arguments)
          current_turn_text
          gate_rejections).sent
        ≡ some sent
      → IsBacked gates conversation sent
  unfolding gate as_transfer prepared with_own_identifiers
  run_tool-IsBacked gates conversation id arguments current_turn_text gate_rejections sent h =
      let call = create_lead id arguments in
      let own = truthy conversation.customer_id in
      let (passed, same) =
        run_tool-sent gates conversation call sent current_turn_text gate_rejections h in
      let (known, detailed) = lead_gate-none gates conversation call gate_rejections passed in
      let asked = identified own id arguments in
      let priority =
        priority_of conversation.strongest_emergency_action
          (or_default (get_text "priority" asked.arguments) "routine") in
      record {
        known =
            rw
              (
                same,
                prepared-get_text gates conversation own id "customer_id" arguments refl,
                argument_kept "priority" "customer_id" priority asked refl,
              )
              (identified-IsKnown conversation own id arguments known);
        ranked =
            rw (same, prepared-get_text gates conversation own id "priority" arguments refl)
              (ranked-IsRanked conversation.strongest_emergency_action asked);
        detailed = detailed;
      }
