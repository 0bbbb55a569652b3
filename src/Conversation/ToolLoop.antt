-- ===== src/Conversation/ToolLoop.antt =====
-- The tool loop of `runTurn` in application/handle-turn.use-case.ts of
-- apps/voice-orchestrator/src/modules/conversation, and the emergency check in front of it, where the caller
-- is in no danger. A completion of the model is a function of the round and of the conversation, whose
-- messages grow with every round; it may throw. The predicates on what is said are a record of functions.
pub mod Calls
pub mod Backstops
pub mod Rounds
use ethixweb_ai_csr.Common.{
  ℕ, ◌≡◌, Bool, true, false, not, ◌&&◌, ◌||◌, List, [], ◌∷◌, ◌++◌, Option, none, some, String, any,
  if◌then◌else◌, str_eq,
}
use ethixweb_ai_csr.Conversation.Records.{
  Text, AiToolCallRequest, AiMessage, AiRole, Conversation, UndeliveredTransfer,
}
use ethixweb_ai_csr.Conversation.Admission.{HandleTurnCommand, HumanTransfer}
use ethixweb_ai_csr.Conversation.Json.{Json}
use ethixweb_ai_csr.Conversation.Tools.{Gates}
use ethixweb_ai_csr.Conversation.Tools.Runs.{ToolEvent}

pub record CompletionResult (O : Type 0) : Type 0 where
  pub text : Text
  pub tool_calls : List (AiToolCallRequest (Json O))
  pub interrupted : Bool
  pub provider_failed : Bool
  pub only_repeated : Bool

pub record Wording : Type 0 where
  pub is_stalled_reply : Text → Bool
  pub looks_like_sign_off : Text → Bool
  pub is_hold_request : Text → Bool
  pub trails_off : Text → Bool
  pub looks_like_unbacked_transfer_promise : Text → Bool
  pub looks_emergency_adjacent : Text → Bool

-- What a turn's loop is given. `late` is whether the silent budget is spent before a round, `classify_zip`
-- whether a ZIP is in the area, if that is known, and `to_string` and `stringify` turn texts and values
-- into strings and texts.
pub record Context (O : Type 0) : Type 0 where
  pub command : HandleTurnCommand (Json O)
  pub emergency_text : Text
  pub gas_leak : Bool
  pub stream_one_completion : ℕ → Conversation (Json O) → Text → Option (CompletionResult O)
  pub late : ℕ → Bool
  pub random_uuid : String → Conversation (Json O) → String
  pub to_string : Text → String
  pub stringify : Json O → Text
  pub classify_zip : String → Option Bool
  pub wording : Wording
  pub gates : Gates O
  pub transfer_started : Json O
  pub promise_summary : Text → Text
  pub crm_unavailable_note : Text
  pub keep_call_moving_note : Text

-- The variables of `runTurn`.
pub record Turn (O : Type 0) : Type 0 where
  pub conversation : Conversation (Json O)
  pub pending_new_messages : List (AiMessage (Json O))
  pub response_text : Text
  pub tool_calls_executed : List String
  pub interrupted : Bool
  pub escalation : Option UndeliveredTransfer
  pub human_transfer : Option HumanTransfer
  pub iteration_count : ℕ
  pub kept_call_moving : Bool
  pub continuing_stalled_reply : Bool
  pub gate_rejections : List String
  pub emergency_pre_check_output : Option (Json O)
  pub events : List ToolEvent

module _ {O : Type 0} where
  unfoldable pub push_message : AiMessage (Json O) → Turn O → Turn O
  push_message message st = record st {
    conversation = record st.conversation { messages = st.conversation.messages ++ message ∷ [] };
    pending_new_messages = st.pending_new_messages ++ message ∷ [];
  }

  abbrev pub assistant_message : Text → List (AiToolCallRequest (Json O)) → AiMessage (Json O)
  assistant_message content tool_calls = record {
    role = AiRole.assistant;
    content = content;
    tool_call_id = none;
    tool_calls = tool_calls;
  }

  abbrev pub tool_message : String → Text → AiMessage (Json O)
  tool_message id content = record {
    role = AiRole.tool;
    content = content;
    tool_call_id = some id;
    tool_calls = [];
  }

  abbrev pub system_note : Text → AiMessage (Json O)
  system_note content = record {
    role = AiRole.system;
    content = content;
    tool_call_id = none;
    tool_calls = [];
  }

  -- `hasCalledEscalateEmergency` and `hasCalledSearchCustomer`, but for the flag.
  pub has_called : String → Conversation (Json O) → Bool
  has_called name conversation =
      any (λ m. any (λ call. str_eq call.name name) m.tool_calls) conversation.messages
