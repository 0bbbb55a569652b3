-- ===== src/Conversation/ToolLoop/Backstops.antt =====
-- handle-turn.use-case.ts: the requests of a completion, with those that the source adds to them: the search
-- for a customer, the check of an emergency, and a transfer that the reply promises.
use ethixweb_ai_csr.Common.{
  Bool, true, false, not, ◌&&◌, ◌||◌, List, [], ◌∷◌, ◌++◌, Option, none, some, String, any,
  if◌then◌else◌, includes, codes_eq,
}
use ethixweb_ai_csr.Conversation.Records.{Text, AiToolCallRequest, Conversation}
use ethixweb_ai_csr.Conversation.Json.{Field, Json, text, object}
use ethixweb_ai_csr.Conversation.Tools.{called, truthy}
use ethixweb_ai_csr.Conversation.ToolLoop.{Context, CompletionResult, has_called}

unfoldable pub is_empty {ℓ} : {A : Type ℓ} → List A → Bool
is_empty [] = true
is_empty (x ∷ xs) = false

differs : Option Text → Text → Bool
differs none now = true
differs (some before) now = not (codes_eq before now)

module _ {O : Type 0} where
  backstop_call :
      Context O
      → Conversation (Json O)
      → String
      → List (String × Field O)
      → AiToolCallRequest (Json O)
  backstop_call c conversation name arguments = record {
    id = c.random_uuid name conversation;
    name = name;
    arguments = object arguments;
  }

  -- Whether the emergency rules are still to be asked about the caller's words.
  unfoldable pub needs_emergency_check : Context O → Bool → Conversation (Json O) → Bool
  unfolding has_called differs codes_eq
  needs_emergency_check c urgent conversation =
      includes "escalateEmergency" c.command.allowed_tools
      && (not (conversation.emergency_ever_checked || has_called "escalateEmergency" conversation)
          || (urgent && differs conversation.last_emergency_checked_transcript c.emergency_text))

  unfoldable pub emergency_call :
      Context O → Text → Conversation (Json O) → AiToolCallRequest (Json O)
  unfolding backstop_call
  emergency_call c description conversation =
      backstop_call c conversation "escalateEmergency"
        (("description", text (c.to_string description)) ∷ [])

  -- The search that the model has not made, where the caller's number is known.
  search_backstop :
      Context O → Bool → Option String → Conversation (Json O) → List (AiToolCallRequest (Json O))
  unfolding backstop_call has_called
  search_backstop c interrupted none conversation = []
  search_backstop c interrupted (some phone) conversation =
      if not interrupted
        && includes "searchCustomer" c.command.allowed_tools
        && not
            (conversation.search_customer_ever_checked || has_called "searchCustomer" conversation)
      then backstop_call c conversation "searchCustomer" (("phone", text phone) ∷ []) ∷ []
      else []

  unfoldable pub backstops :
      Context O → CompletionResult O → Conversation (Json O) → List (AiToolCallRequest (Json O))
  unfolding search_backstop needs_emergency_check emergency_call
  backstops c turn conversation =
      search_backstop c turn.interrupted (truthy conversation.caller_ani) conversation
      ++ (if needs_emergency_check c (c.wording.looks_emergency_adjacent c.emergency_text)
            conversation
          then emergency_call c c.emergency_text conversation ∷ []
          else [])

  -- A transfer that the reply promises is added to the requests.
  with_promise :
      Context O
      → Text
      → Conversation (Json O)
      → List (AiToolCallRequest (Json O))
      → List (AiToolCallRequest (Json O))
  unfolding backstop_call
  with_promise c said conversation calls =
      if includes "transferToHuman" c.command.allowed_tools
        && c.wording.looks_like_unbacked_transfer_promise said
        && not (any (λ call. called "transferToHuman" call.name) calls)
      then calls
        ++ backstop_call c conversation "transferToHuman" (
            ("reason", text "caller_requested")
            ∷ ("summary", text (c.to_string (c.promise_summary c.command.transcript)))
            ∷ [])
          ∷ []
      else calls

  unfoldable pub requested :
      Context O → CompletionResult O → Conversation (Json O) → List (AiToolCallRequest (Json O))
  unfolding backstops with_promise is_empty
  requested c turn conversation =
      with_promise c turn.text conversation
        (if is_empty turn.tool_calls then backstops c turn conversation else turn.tool_calls)
