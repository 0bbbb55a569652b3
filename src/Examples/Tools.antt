-- ===== src/Examples/Tools.antt =====
-- A turn in which the model creates a lead for a customer that a tool has found, and calls it an emergency.
use mathlib.Core.Option
use ethixweb_ai_csr.Common.{
  ℕ, ◌≡◌, refl, true, false, List, [], ◌∷◌, ◌==◌, Option, none, some, String, codes, if◌then◌else◌,
}
use ethixweb_ai_csr.Conversation.States.{qualifying}
use ethixweb_ai_csr.Conversation.Records.{Text, AiToolCallRequest, Conversation}
use ethixweb_ai_csr.Conversation.Json.{Json, text, flag, object, set_text}
use ethixweb_ai_csr.Conversation.Tools.{Gates, BrokerAnswer, succeeded, called}
use ethixweb_ai_csr.Conversation.Tools.Runs.{run_tool}
use ethixweb_ai_csr.Conversation.Tools.Leads.{create_lead, IsBacked, run_tool-IsBacked}
use ethixweb_ai_csr.Conversation.ToolLoop.{
  Context, Turn, CompletionResult, assistant_message, tool_message,
}
use ethixweb_ai_csr.Conversation.ToolLoop.Rounds.{run_turn_tools}
use ethixweb_ai_csr.Conversation.ToolLoop.Rounds.Answered.{Ends, run_turn_tools-Finished}

abbrev search : AiToolCallRequest (Json ℕ)
search = record {
  id = "a";
  name = "searchCustomer";
  arguments = object (("phone", text "+1") ∷ []);
}

abbrev conversation : Conversation (Json ℕ)
conversation = record {
  id = "1";
  tenant_id = "t";
  business_id = "b";
  call_id = "k";
  state = qualifying;
  system_prompt = codes "Be kind.";
  llm_model = "m";
  messages = assistant_message [] (search ∷ []) ∷ tool_message "a" (codes "[c7]") ∷ [];
  transcript = [];
  lead_id = none;
  capacity_reservation_id = none;
  started_at = 0;
  ended_at = none;
  end_reason = none;
  caller_ani = some "+1";
  search_customer_ever_checked = true;
  emergency_ever_checked = false;
  strongest_emergency_action = none;
  undelivered_transfer = none;
  last_emergency_checked_transcript = none;
  lead_ever_attempted = false;
  customer_id = none;
  customer_capture_attempted = false;
  customer_details_on_file = none;
  crm_integration_unavailable = false;
  service_area_checked = false;
  last_service_area_check = none;
  business_hours_checked = false;
  last_business_hours_check = none;
  version = 1;
}

abbrev refusal : Json ℕ
refusal = object (("error", text "refused") ∷ [])

abbrev broker : Conversation (Json ℕ) → AiToolCallRequest (Json ℕ) → BrokerAnswer ℕ
broker st call =
    if called "createLead" call.name
    then succeeded (object (("lead_id", text "l9") ∷ []))
    else succeeded (object (("isEmergency", flag false) ∷ []))

abbrev gates : Gates ℕ
gates = record {
  normalize_transfer_arguments = λ st arguments. arguments;
  save_blocked_reason = λ st call said. none;
  lead_problem_blocked_reason = λ st. none;
  is_hard_emergency = λ st. false;
  name_is_grounded = λ st call. true;
  has_duplicate_name = λ arguments. false;
  customer_not_saved_error = refusal;
  lead_needs_customer_details_error = refusal;
  name_not_given_error = refusal;
  duplicate_name_error = refusal;
  summary_for_the_team = λ st given. given;
  string_of = λ n. "number";
  execute = broker;
}

abbrev arguments : Json ℕ
arguments = object (("customer_id", text "c7") ∷ ("priority", text "emergency") ∷ [])

abbrev sent : AiToolCallRequest (Json ℕ)
sent = create_lead "x" (object (("customer_id", text "c7") ∷ ("priority", text "urgent") ∷ []))

lead_sent : (run_tool gates conversation (create_lead "x" arguments) [] []).sent ≡ some sent
unfolding run_tool set_text
lead_sent = refl

run_tool-IsBacked_example : IsBacked gates conversation sent
run_tool-IsBacked_example = run_tool-IsBacked gates conversation "x" arguments [] [] sent lead_sent

abbrev says : Text → List (AiToolCallRequest (Json ℕ)) → CompletionResult ℕ
says words calls = record {
  text = words;
  tool_calls = calls;
  interrupted = false;
  provider_failed = false;
  only_repeated = false;
}

abbrev completes : ℕ → Conversation (Json ℕ) → Text → Option (CompletionResult ℕ)
completes iteration st said =
    if iteration == 0
    then some (says (codes "One moment.") (create_lead "x" arguments ∷ []))
    else some (says (codes "All set.") [])

abbrev context : Context ℕ
context = record {
  command = record {
    tenant_id = "t";
    conversation_id = "1";
    idempotency_key = "k";
    transcript = codes "Thanks";
    stt_confidence = none;
    offset_ms = none;
    allowed_tools = "escalateEmergency" ∷ "createLead" ∷ [];
  };
  emergency_text = codes "Thanks";
  gas_leak = false;
  stream_one_completion = completes;
  late = λ iteration. false;
  random_uuid = λ name st. name;
  to_string = λ words. "words";
  stringify = λ json. codes "{}";
  classify_zip = λ zip. none;
  wording = record {
    is_stalled_reply = λ words. false;
    looks_like_sign_off = λ words. false;
    is_hold_request = λ words. false;
    trails_off = λ words. false;
    looks_like_unbacked_transfer_promise = λ words. false;
    looks_emergency_adjacent = λ words. false;
  };
  gates = gates;
  transfer_started = refusal;
  promise_summary = λ words. words;
  crm_unavailable_note = codes "No CRM.";
  keep_call_moving_note = codes "Go on.";
}

abbrev turn : Turn ℕ
turn = record {
  conversation = conversation;
  pending_new_messages = [];
  response_text = [];
  tool_calls_executed = [];
  interrupted = false;
  escalation = none;
  human_transfer = none;
  iteration_count = 0;
  kept_call_moving = false;
  continuing_stalled_reply = false;
  gate_rejections = [];
  emergency_pre_check_output = none;
  events = [];
}

run_turn_tools-Finished_example : Ends context turn 5 (run_turn_tools context turn)
run_turn_tools-Finished_example = run_turn_tools-Finished context turn refl refl

-- The rules are asked first, and the lead is created in between.
turn_runs :
    Option.map {B = List String × ℕ × Option String}
      (λ (st : Turn ℕ). (st.tool_calls_executed, st.iteration_count, st.conversation.lead_id))
      (run_turn_tools context turn)
    ≡ some ("escalateEmergency" ∷ "createLead" ∷ [], 2, some "l9")
unfolding run_turn_tools set_text
turn_runs = refl
