-- ===== src/Conversation/ToolLoop/Calls.antt =====
-- handle-turn.use-case.ts: how the requests of one completion are run.
pub mod Waiting
use ethixweb_ai_csr.Common.{
  Bool, true, false, not, ◌&&◌, ◌||◌, List, [], ◌∷◌, ◌++◌, Option, none, some, String,
  if◌then◌else◌, str_eq, is_some, or_default, codes, trim_start, trim_end, includes_codes,
}
use ethixweb_ai_csr.Conversation.Records.{
  Text, AiToolCallRequest, Conversation, EmergencyAction, forward_call, priority_notify,
}
use ethixweb_ai_csr.Conversation.Json.{Json, Field, flag, object, get_text}
use ethixweb_ai_csr.Conversation.Tools.{called}
use ethixweb_ai_csr.Conversation.Tools.Runs.{ToolRun, run_tool}
use ethixweb_ai_csr.Conversation.ToolLoop.{Context, Turn, push_message, tool_message, system_note}

-- What a round's requests have done, besides what they have done to the turn.
pub record Ran (O : Type 0) : Type 0 where
  pub turn : Turn O
  pub crm_just_became_unavailable : Bool
  pub escalated_this_iteration : Bool
  pub human_transferred_this_iteration : Bool
  pub last_output : Option (Json O)

stronger : Option EmergencyAction → Option String → Option EmergencyAction
stronger (some forward_call) action = some forward_call
stronger before none = before
stronger before (some action) =
    if str_eq action "forward_call"
    then some forward_call
    else if str_eq action "priority_notify"
    then some priority_notify
    else before

module _ {O : Type 0} where
  unfoldable pub not_run : Turn O → Ran O
  not_run st = record {
    turn = st;
    crm_just_became_unavailable = false;
    escalated_this_iteration = false;
    human_transferred_this_iteration = false;
    last_output = none;
  }

  -- The flags of the conversation that say what has been called.
  pub mark_called : Text → String → Conversation (Json O) → Conversation (Json O)
  mark_called emergency_text name conversation = record conversation {
    emergency_ever_checked = called "escalateEmergency" name || conversation.emergency_ever_checked;
    last_emergency_checked_transcript =
        if called "escalateEmergency" name
        then some emergency_text
        else conversation.last_emergency_checked_transcript;
    search_customer_ever_checked =
        called "searchCustomer" name || conversation.search_customer_ever_checked;
    lead_ever_attempted = called "createLead" name || conversation.lead_ever_attempted;
    customer_capture_attempted =
        called "createCustomer" name || conversation.customer_capture_attempted;
    service_area_checked = called "getServiceAreas" name || conversation.service_area_checked;
    business_hours_checked = called "getBusinessHours" name || conversation.business_hours_checked;
  }

  is_crm_unavailable_error : Json O → Bool
  unfolding get_text includes_codes
  is_crm_unavailable_error output =
      str_eq (or_default (get_text "error" output) "") "tool_unavailable"
      && includes_codes (codes (or_default (get_text "detail" output) ""))
          (codes "NoCrmIntegrationConfiguredError")

  -- Our own list of ZIPs goes before what the tool has said.
  with_verdict : String → Option Bool → ToolRun O → ToolRun O
  with_verdict zip none run = run
  with_verdict zip (some inside) run = record run {
    output = object (("inServiceArea", flag inside) ∷ []);
    conversation = record run.conversation {
      last_service_area_check = some (record { zip = zip; in_service_area = inside });
    };
  }

  -- The output that the model is told, in place of the tool's.
  shown : Context O → AiToolCallRequest (Json O) → ToolRun O → ToolRun O
  unfolding with_verdict trim_start trim_end get_text
  shown c call run =
      if called "transferToHuman" call.name && is_some run.human_transfer
      then record run { output = c.transfer_started }
      else if called "getServiceAreas" call.name
      then (let zip =
            c.to_string
              (trim_end (trim_start (codes (or_default (get_text "zip" call.arguments) "")))) in
          with_verdict zip (c.classify_zip zip) run)
      else run

  -- A conversation on which the strongest action of the rules is kept.
  unfoldable pub with_action : String → Json O → Conversation (Json O) → Conversation (Json O)
  unfolding stronger get_text
  with_action name output conversation = record conversation {
    strongest_emergency_action =
        if called "escalateEmergency" name
        then stronger conversation.strongest_emergency_action (get_text "action" output)
        else conversation.strongest_emergency_action;
  }

  newly_unavailable : String → Json O → Conversation (Json O) → Bool
  unfolding is_crm_unavailable_error
  newly_unavailable name output conversation =
      (called "createCustomer" name || called "createLead" name)
      && is_crm_unavailable_error output
      && not conversation.crm_integration_unavailable

  unfoldable pub executed : Context O → AiToolCallRequest (Json O) → Ran O → Ran O
  unfolding mark_called shown newly_unavailable with_action push_message run_tool
  executed c call ran =
      let st = ran.turn in
      let run =
        run_tool c.gates (mark_called c.emergency_text call.name st.conversation) call
          st.response_text st.gate_rejections in
      let told = shown c call run in
      let unavailable = newly_unavailable call.name told.output told.conversation in
      let conversation = record told.conversation {
        crm_integration_unavailable = unavailable || told.conversation.crm_integration_unavailable;
      } in
      let st' = push_message (tool_message call.id (c.stringify told.output)) (record st {
        conversation = with_action call.name run.output conversation;
        tool_calls_executed = st.tool_calls_executed ++ call.name ∷ [];
        gate_rejections = run.gate_rejections;
        events = st.events ++ run.events;
      }) in
      record {
        turn = record st' {
          escalation = if is_some run.escalation then run.escalation else st.escalation;
          human_transfer =
              if is_some run.human_transfer then run.human_transfer else st.human_transfer;
        };
        crm_just_became_unavailable = unavailable || ran.crm_just_became_unavailable;
        escalated_this_iteration = is_some run.escalation || ran.escalated_this_iteration;
        human_transferred_this_iteration =
            is_some run.human_transfer || ran.human_transferred_this_iteration;
        last_output = some run.output;
      }

  -- An emergency that has been checked in front of the loop is answered with what that check has said.
  answer_again : Context O → AiToolCallRequest (Json O) → Option (Json O) → Ran O → Ran O
  unfolding executed push_message
  answer_again c call none ran = executed c call ran
  answer_again c call (some output) ran =
      if called "escalateEmergency" call.name
      then record ran { turn = push_message (tool_message call.id (c.stringify output)) ran.turn }
      else executed c call ran

  pub run_call : Context O → AiToolCallRequest (Json O) → Ran O → Ran O
  unfolding answer_again
  run_call c call ran = answer_again c call ran.turn.emergency_pre_check_output ran

  pub run_calls : Context O → List (AiToolCallRequest (Json O)) → Ran O → Ran O
  unfolding run_call
  run_calls c [] ran = ran
  run_calls c (call ∷ calls) ran = run_calls c calls (run_call c call ran)

  -- The requests of a completion, and the note that the CRM is not there.
  unfoldable pub run_requests : Context O → List (AiToolCallRequest (Json O)) → Turn O → Ran O
  unfolding run_calls push_message not_run
  run_requests c calls st =
      let ran = run_calls c calls (not_run st) in
      record ran {
        turn =
            if ran.crm_just_became_unavailable
            then push_message (system_note c.crm_unavailable_note) ran.turn
            else ran.turn;
      }
