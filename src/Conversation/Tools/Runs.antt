-- ===== src/Conversation/Tools/Runs.antt =====
-- `runTool` and `reactToToolSuccess` of handle-turn.use-case.ts: what a request of the model does.
pub mod Kept
use ethixweb_ai_csr.Common.{
  ◌≡◌, refl, sym, arith, Bool, true, false, ◌&&◌, List, [], ◌∷◌, ◌++◌, Option, none, some, String,
  if◌then◌else◌, is_some, or_default,
}
use ethixweb_ai_csr.Conversation.Records.{
  Text, AiToolCallRequest, Conversation, UndeliveredTransfer, ServiceAreaCheck, BusinessHoursCheck,
}
use ethixweb_ai_csr.Conversation.Admission.{HumanTransfer}
use ethixweb_ai_csr.Conversation.Json.{
  Field, text, flag, other, Json, object, field, get_text, get_flag, is_record,
}
use ethixweb_ai_csr.Conversation.Tools.{
  BrokerAnswer, succeeded, degraded, rejected, Gates, called, prepared,
}
use ethixweb_ai_csr.Conversation.Tools.Gating.{gate}

-- What is published besides the turn's own events.
pub data ToolEvent : Type 0 where
  tool_called tool_completed lead_created : String → ToolEvent
  escalation_triggered : String → String → ToolEvent

-- What a request has come to. `sent` is what the broker has been asked for, if it has been asked.
pub record ToolRun (O : Type 0) : Type 0 where
  pub conversation : Conversation (Json O)
  pub output : Json O
  pub escalation : Option UndeliveredTransfer
  pub human_transfer : Option HumanTransfer
  pub gate_rejections : List String
  pub sent : Option (AiToolCallRequest (Json O))
  pub events : List ToolEvent

module _ {O : Type 0} where
  -- `String(json[key])`
  string_at : (O → String) → Option (Field O) → String
  string_at string_of none = "undefined"
  string_at string_of (some (text s)) = s
  string_at string_of (some (flag true)) = "true"
  string_at string_of (some (flag false)) = "false"
  string_at string_of (some (other o)) = string_of o

  with_customer : Option String → ToolRun O → ToolRun O
  with_customer none run = run
  with_customer (some id) run = record run {
    conversation = record run.conversation {
      customer_id = some id;
      customer_details_on_file = some true;
    };
  }

  with_service_area : Option String → Option Bool → ToolRun O → ToolRun O
  with_service_area zip none run = run
  with_service_area zip (some inside) run = record run {
    conversation = record run.conversation {
      last_service_area_check = some (record { zip = or_default zip ""; in_service_area = inside });
    };
  }

  with_business_hours : Option Bool → Bool → Option String → ToolRun O → ToolRun O
  with_business_hours none is_holiday opens_at run = run
  with_business_hours (some is_open) is_holiday opens_at run = record run {
    conversation = record run.conversation {
      last_business_hours_check =
          some (record { is_open = is_open; opens_at = opens_at; is_holiday = is_holiday });
    };
  }

  with_lead : Option String → ToolRun O → ToolRun O
  with_lead none run = run
  with_lead (some id) run = record run {
    conversation = record run.conversation { lead_id = some id };
    events = run.events ++ lead_created id ∷ [];
  }

  with_escalation : Gates O → Json O → ToolRun O → ToolRun O
  unfolding string_at get_flag get_text
  with_escalation gates output run =
      let severity = string_at gates.string_of (field "severity" output) in
      let action = string_at gates.string_of (field "action" output) in
      if or_default (get_flag "isEmergency" output) false
      then record run {
        escalation = some (record {
          severity = severity;
          action = action;
          transfer_destination = get_text "transferDestination" output;
        });
        events = run.events ++ escalation_triggered severity action ∷ [];
      }
      else run

  with_transfer : Json O → Json O → ToolRun O → ToolRun O
  unfolding get_text is_record
  with_transfer arguments output run =
      if is_record output
      then record run {
        human_transfer = some (record {
          reason = or_default (get_text "reason" arguments) "unknown";
          transfer_destination = get_text "transferDestination" output;
        });
      }
      else run

  -- Of a tool that has succeeded, with the arguments that the broker was given but for the flag of an
  -- address.
  unfoldable pub react_to_tool_success : Gates O → String → Json O → Json O → ToolRun O → ToolRun O
  unfolding with_customer with_service_area with_business_hours with_lead with_escalation
      with_transfer get_text get_flag
  react_to_tool_success gates name output arguments run =
      if called "createCustomer" name
      then with_customer (get_text "customer_id" output) run
      else if called "getServiceAreas" name
      then with_service_area (get_text "zip" arguments) (get_flag "inServiceArea" output) run
      else if called "getBusinessHours" name
      then with_business_hours (get_flag "isOpen" output)
          (or_default (get_flag "isHoliday" output) false) (get_text "opensAt" output) run
      else if called "createLead" name
      then with_lead (get_text "lead_id" output) run
      else if called "escalateEmergency" name
      then with_escalation gates output run
      else if called "transferToHuman" name
      then with_transfer arguments output run
      else run

  error_output : String → String → Json O
  error_output error detail = object (("error", text error) ∷ ("detail", text detail) ∷ [])

  with_answer : Gates O → AiToolCallRequest (Json O) → BrokerAnswer O → ToolRun O → ToolRun O
  unfolding react_to_tool_success error_output
  with_answer gates call (succeeded output) run =
      react_to_tool_success gates call.name output call.arguments
        (record run { output = output; events = run.events ++ tool_completed call.name ∷ [] })
  with_answer gates call (degraded reason) run = record run {
    output = error_output "tool_unavailable" reason;
    events = run.events ++ tool_completed call.name ∷ [];
  }
  with_answer gates call (rejected reason) run = record run {
    output = error_output "tool_rejected" reason;
  }

  -- The arguments of a transfer are put in order before anything else.
  unfoldable pub as_transfer :
      Gates O → Conversation (Json O) → AiToolCallRequest (Json O) → AiToolCallRequest (Json O)
  as_transfer gates conversation call =
      if called "transferToHuman" call.name
      then record call {
        arguments = gates.normalize_transfer_arguments conversation call.arguments;
      }
      else call

  ask_broker : Gates O → AiToolCallRequest (Json O) → Option (Json O) → ToolRun O → ToolRun O
  unfolding with_answer prepared
  ask_broker gates call (some refusal) run = record run { output = refusal }
  ask_broker gates call none run =
      let sent = prepared gates run.conversation call in
      record (with_answer gates sent (gates.execute run.conversation sent) run) { sent = some sent }

  fresh_run : Conversation (Json O) → String → List String → ToolRun O
  fresh_run conversation name gate_rejections = record {
    conversation = conversation;
    output = object [];
    escalation = none;
    human_transfer = none;
    gate_rejections = gate_rejections;
    sent = none;
    events = tool_called name ∷ [];
  }

  unfoldable pub run_tool :
      Gates O → Conversation (Json O) → AiToolCallRequest (Json O) → Text → List String → ToolRun O
  unfolding as_transfer ask_broker gate fresh_run
  run_tool gates conversation requested current_turn_text gate_rejections =
      let call = as_transfer gates conversation requested in
      let (refusal, rejections) = gate gates conversation call current_turn_text gate_rejections in
      ask_broker gates call refusal (fresh_run conversation call.name rejections)

  ask_broker-sent :
      (gates : Gates O) (call sent : AiToolCallRequest (Json O)) (refusal : Option (Json O))
      (run : ToolRun O)
      → run.sent ≡ none
      → (ask_broker gates call refusal run).sent ≡ some sent
      → (refusal ≡ none) × (sent ≡ prepared gates run.conversation call)
  unfolding ask_broker
  ask_broker-sent gates call sent (some refusal) run e h = absurd (let h' = rw e at h in cc)
  ask_broker-sent gates call sent none run e h = (refl, cc)

  -- The broker is asked where no gate refuses, and for the request as it has been prepared.
  pub run_tool-sent :
      (gates : Gates O) (conversation : Conversation (Json O))
      (requested sent : AiToolCallRequest (Json O)) (current_turn_text : Text)
      (gate_rejections : List String)
      → (run_tool gates conversation requested current_turn_text gate_rejections).sent ≡ some sent
      → ((gate gates conversation
            (as_transfer gates conversation requested)
            current_turn_text
            gate_rejections).0
          ≡ none)
        × (sent ≡ prepared gates conversation (as_transfer gates conversation requested))
  unfolding run_tool fresh_run
  run_tool-sent gates conversation requested sent current_turn_text gate_rejections h =
      let call = as_transfer gates conversation requested in
      let verdict = gate gates conversation call current_turn_text gate_rejections in
      ask_broker-sent gates call sent verdict.0 (fresh_run conversation call.name verdict.1) refl h
