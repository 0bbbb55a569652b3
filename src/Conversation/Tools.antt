-- ===== src/Conversation/Tools.antt =====
-- `runTool` of application/handle-turn.use-case.ts of apps/voice-orchestrator/src/modules/conversation, with
-- `withOwnIdentifiers`, `withRulePriority`, `withAddressFlag` and `reactToToolSuccess`. What the source asks
-- of the words of the call (save-readiness.ts, name-grounding.ts, call-notes.ts) is a record of functions,
-- and so is the broker, which answers a request or throws.
pub mod Gating
pub mod Runs
pub mod Leads
use Prim.Native.Char.{code}
use ethixweb_ai_csr.Common.{
  ℕ, ◌≡◌, Bool, true, false, not, ◌&&◌, ◌||◌, List, [], ◌∷◌, ◌++◌, Option, none, some, String, any,
  codes, leb, ◌==◌, if◌then◌else◌, is_some, or_default, length, lookup, insert, includes, str_eq,
  includes_codes,
}
use ethixweb_ai_csr.Conversation.Records.{
  Text, AiToolCallRequest, AiMessage, Conversation, forward_call, priority_notify, EmergencyAction,
  UndeliveredTransfer,
}
use ethixweb_ai_csr.Conversation.Window.{is_tool}
use ethixweb_ai_csr.Conversation.Admission.{HumanTransfer}
use ethixweb_ai_csr.Conversation.Json.{Json, get_text, set_text}

-- What the broker answers, or what it throws.
pub data BrokerAnswer (O : Type 0) : Type 0 where
  succeeded : Json O → BrokerAnswer O
  degraded rejected : String → BrokerAnswer O

-- A refusal: its code, and what the model is told.
pub record Refusal (O : Type 0) : Type 0 where
  pub error : String
  pub output : Json O

pub record Gates (O : Type 0) : Type 0 where
  pub normalize_transfer_arguments : Conversation (Json O) → Json O → Json O
  pub save_blocked_reason :
      Conversation (Json O) → AiToolCallRequest (Json O) → Text → Option (Refusal O)
  pub lead_problem_blocked_reason : Conversation (Json O) → Option (Refusal O)
  pub is_hard_emergency : Conversation (Json O) → Bool
  pub name_is_grounded : Conversation (Json O) → AiToolCallRequest (Json O) → Bool
  pub has_duplicate_name : Json O → Bool
  pub customer_not_saved_error : Json O
  pub lead_needs_customer_details_error : Json O
  pub name_not_given_error : Json O
  pub duplicate_name_error : Json O
  pub summary_for_the_team : Conversation (Json O) → String → String
  pub string_of : O → String
  pub execute : Conversation (Json O) → AiToolCallRequest (Json O) → BrokerAnswer O

-- A string that is not empty.
abbrev pub truthy : Option String → Option String
truthy none = none
truthy (some s) = if str_eq s "" then none else some s

is_digit : ℕ → Bool
is_digit c = leb 48 c && leb c 57

-- `phone.replace(/\D/g, "")`
digits_of : String → String
unfolding is_digit
digits_of String.[] = String.[]
digits_of (String.◌∷◌ c s) =
    let rest = digits_of s in if is_digit (code c) then String.◌∷◌ c rest else rest

-- `/^\+1\d{10}$/.test(phone)`
is_e164 : List ℕ → Bool
unfolding is_digit
is_e164 (plus ∷ one ∷ digits) =
    plus == 43 && one == 49 && length digits == 10 && not (any (λ c. not (is_digit c)) digits)
is_e164 _ = false

ten_of : String → String
ten_of String.[] = String.[]
ten_of (String.◌∷◌ c s) = if length (codes s) == 10 && code c == 49 then s else String.◌∷◌ c s

abbrev pub called : String → String → Bool
called expected name = str_eq name expected

pub priority_of : Option EmergencyAction → String → String
priority_of none asked = if str_eq asked "emergency" then "urgent" else asked
priority_of (some forward_call) asked = "emergency"
priority_of (some priority_notify) asked = "urgent"

module _ {O : Type 0} where
  pub with_argument : String → String → AiToolCallRequest (Json O) → AiToolCallRequest (Json O)
  with_argument key s call = record call { arguments = set_text key s call.arguments }

  with_phone : Option String → AiToolCallRequest (Json O) → AiToolCallRequest (Json O)
  unfolding is_e164 digits_of ten_of with_argument
  with_phone none call = call
  with_phone (some phone) call =
      let ten = ten_of (digits_of phone) in
      if not (is_e164 (codes phone)) && length (codes ten) == 10
      then with_argument "phone" (Prim.Native.String.◌++◌ "+1" ten) call
      else call

  pub with_identifier :
      String → Option String → AiToolCallRequest (Json O) → AiToolCallRequest (Json O)
  unfolding with_argument
  with_identifier key none call = call
  with_identifier key (some correct) call = with_argument key correct call

  -- An identifier that is the right one already is set again, which changes nothing.
  unfoldable pub with_own_identifiers :
      Conversation (Json O) → AiToolCallRequest (Json O) → AiToolCallRequest (Json O)
  unfolding with_phone with_identifier get_text
  with_own_identifiers conversation call =
      if called "createCustomer" call.name
      then with_phone (get_text "phone" call.arguments) call
      else if called "createLead" call.name
      then with_identifier "customer_id" (truthy conversation.customer_id) call
      else if called "updateLead" call.name
      then with_identifier "lead_id" (truthy conversation.lead_id) call
      else call

  unfoldable pub with_rule_priority :
      Conversation (Json O) → AiToolCallRequest (Json O) → AiToolCallRequest (Json O)
  unfolding get_text priority_of with_argument
  with_rule_priority conversation call =
      if called "createLead" call.name
      then with_argument "priority"
          (priority_of conversation.strongest_emergency_action
            (or_default (get_text "priority" call.arguments) "routine"))
          call
      else call

  pub with_summary :
      Conversation (Json O)
      → Gates O
      → Option String
      → AiToolCallRequest (Json O)
      → AiToolCallRequest (Json O)
  unfolding with_argument
  with_summary conversation gates none call = call
  with_summary conversation gates (some given) call =
      with_argument "problem_summary" (gates.summary_for_the_team conversation given) call

  unfoldable pub with_address_flag :
      Gates O → Conversation (Json O) → AiToolCallRequest (Json O) → AiToolCallRequest (Json O)
  unfolding get_text with_summary
  with_address_flag gates conversation call =
      if called "createLead" call.name
      then with_summary conversation gates (get_text "problem_summary" call.arguments) call
      else call

  -- What the broker is asked for.
  unfoldable pub prepared :
      Gates O → Conversation (Json O) → AiToolCallRequest (Json O) → AiToolCallRequest (Json O)
  unfolding with_address_flag with_rule_priority with_own_identifiers
  prepared gates conversation call =
      with_address_flag gates conversation
        (with_rule_priority conversation (with_own_identifiers conversation call))
