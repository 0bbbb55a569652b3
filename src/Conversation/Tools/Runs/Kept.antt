-- ===== src/Conversation/Tools/Runs/Kept.antt =====
-- handle-turn.use-case.ts: what a request of the model leaves as it is.
use ethixweb_ai_csr.Common.{
  ◌≡◌, refl, Bool, true, false, List, Option, none, some, String, if◌then◌else◌, or_default,
}
use ethixweb_ai_csr.Conversation.Records.{Text, AiToolCallRequest, Conversation}
use ethixweb_ai_csr.Conversation.Json.{Json, get_text, get_flag, is_record}
use ethixweb_ai_csr.Conversation.Tools.{
  BrokerAnswer, succeeded, degraded, rejected, Gates, called, prepared,
}
use ethixweb_ai_csr.Conversation.Tools.Gating.{gate}
use ethixweb_ai_csr.Conversation.Tools.Runs.{
  ToolRun, with_customer, with_service_area, with_business_hours, with_lead, with_escalation,
  with_transfer, react_to_tool_success, with_answer, ask_broker, as_transfer, fresh_run, run_tool,
}

module _ {O : Type 0} where
  -- The messages of a conversation, and the strongest action of the rules.
  pub record Kept (before : Conversation (Json O)) (after : ToolRun O) : Type 0 where
    pub messages : after.conversation.messages ≡ before.messages
    pub action : after.conversation.strongest_emergency_action ≡ before.strongest_emergency_action

  pub Kept-if :
      (b : Bool) (before : Conversation (Json O)) (x y : ToolRun O)
      → Kept before x
      → Kept before y
      → Kept before (if b then x else y)
  Kept-if true before x y h h' = h
  Kept-if false before x y h h' = h'

  with_customer-Kept :
      (id : Option String) (run : ToolRun O) → Kept run.conversation (with_customer id run)
  unfolding with_customer
  with_customer-Kept none run = record { messages = refl; action = refl }
  with_customer-Kept (some id) run = record { messages = refl; action = refl }

  with_service_area-Kept :
      (zip : Option String) (inside : Option Bool) (run : ToolRun O)
      → Kept run.conversation (with_service_area zip inside run)
  unfolding with_service_area
  with_service_area-Kept zip none run = record { messages = refl; action = refl }
  with_service_area-Kept zip (some inside) run = record { messages = refl; action = refl }

  with_business_hours-Kept :
      (is_open : Option Bool) (is_holiday : Bool) (opens_at : Option String) (run : ToolRun O)
      → Kept run.conversation (with_business_hours is_open is_holiday opens_at run)
  unfolding with_business_hours
  with_business_hours-Kept none is_holiday opens_at run = record { messages = refl; action = refl }
  with_business_hours-Kept (some b) is_holiday opens_at run = record {
    messages = refl;
    action = refl;
  }

  with_lead-Kept : (id : Option String) (run : ToolRun O) → Kept run.conversation (with_lead id run)
  unfolding with_lead
  with_lead-Kept none run = record { messages = refl; action = refl }
  with_lead-Kept (some id) run = record { messages = refl; action = refl }

  with_escalation-Kept :
      (gates : Gates O) (output : Json O) (run : ToolRun O)
      → Kept run.conversation (with_escalation gates output run)
  unfolding with_escalation
  with_escalation-Kept gates output run =
      Kept-if (or_default (get_flag "isEmergency" output) false) run.conversation _ run
        (record { messages = refl; action = refl }) (record { messages = refl; action = refl })

  with_transfer-Kept :
      (arguments output : Json O) (run : ToolRun O)
      → Kept run.conversation (with_transfer arguments output run)
  unfolding with_transfer
  with_transfer-Kept arguments output run =
      Kept-if (is_record output) run.conversation _ run (record { messages = refl; action = refl })
        (record { messages = refl; action = refl })

  react_to_tool_success-Kept :
      (gates : Gates O) (name : String) (output arguments : Json O) (run : ToolRun O)
      → Kept run.conversation (react_to_tool_success gates name output arguments run)
  unfolding react_to_tool_success
  react_to_tool_success-Kept gates name output arguments run =
      let before = run.conversation in
      Kept-if (called "createCustomer" name) before _ _
        (with_customer-Kept (get_text "customer_id" output) run)
        (Kept-if (called "getServiceAreas" name) before _ _
          (with_service_area-Kept (get_text "zip" arguments) (get_flag "inServiceArea" output) run)
          (Kept-if (called "getBusinessHours" name) before _ _
            (with_business_hours-Kept (get_flag "isOpen" output)
              (or_default (get_flag "isHoliday" output) false) (get_text "opensAt" output) run)
            (Kept-if (called "createLead" name) before _ _
              (with_lead-Kept (get_text "lead_id" output) run)
              (Kept-if (called "escalateEmergency" name) before _ _
                (with_escalation-Kept gates output run)
                (Kept-if (called "transferToHuman" name) before _ run
                  (with_transfer-Kept arguments output run)
                  (record { messages = refl; action = refl }))))))

  with_answer-Kept :
      (gates : Gates O) (call : AiToolCallRequest (Json O)) (answer : BrokerAnswer O)
      (run : ToolRun O)
      → Kept run.conversation (with_answer gates call answer run)
  unfolding with_answer
  with_answer-Kept gates call (succeeded output) run =
      react_to_tool_success-Kept gates call.name output call.arguments _
  with_answer-Kept gates call (degraded reason) run = record { messages = refl; action = refl }
  with_answer-Kept gates call (rejected reason) run = record { messages = refl; action = refl }

  ask_broker-Kept :
      (gates : Gates O) (call : AiToolCallRequest (Json O)) (refusal : Option (Json O))
      (run : ToolRun O)
      → Kept run.conversation (ask_broker gates call refusal run)
  unfolding ask_broker
  ask_broker-Kept gates call (some refusal) run = record { messages = refl; action = refl }
  ask_broker-Kept gates call none run =
      let sent = prepared gates run.conversation call in
      let kept = with_answer-Kept gates sent (gates.execute run.conversation sent) run in
      record { messages = kept.messages; action = kept.action }

  pub run_tool-Kept :
      (gates : Gates O) (conversation : Conversation (Json O)) (call : AiToolCallRequest (Json O))
      (current_turn_text : Text) (gate_rejections : List String)
      → Kept conversation (run_tool gates conversation call current_turn_text gate_rejections)
  unfolding run_tool fresh_run
  run_tool-Kept gates conversation requested current_turn_text gate_rejections =
      let call = as_transfer gates conversation requested in
      let verdict = gate gates conversation call current_turn_text gate_rejections in
      ask_broker-Kept gates call verdict.0 (fresh_run conversation call.name verdict.1)
