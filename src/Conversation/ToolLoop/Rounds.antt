-- ===== src/Conversation/ToolLoop/Rounds.antt =====
-- The tool loop of `runTurn` in handle-turn.use-case.ts, round by round, and the check of an emergency in
-- front of it.
pub mod Awaiting
pub mod Answered
use ethixweb_ai_csr.Common.{
  ℕ, zero, suc, ◌-◌, Bool, true, false, not, ◌&&◌, ◌||◌, List, [], ◌∷◌, ◌++◌, Option, none, some,
  String, any, every, if◌then◌else◌, str_eq, is_some, is_space, has_words, codes, trim_start,
  trim_end, split_tokens, length, leb, ltb, includes, codes_eq,
}
use ethixweb_ai_csr.Conversation.Records.{Text, AiToolCallRequest, Conversation}
use ethixweb_ai_csr.Conversation.Window.{default_max_messages, compress_messages}
use ethixweb_ai_csr.Conversation.Json.{Field, Json, text, object}
use ethixweb_ai_csr.Conversation.Tools.{called, truthy}
use ethixweb_ai_csr.Conversation.ToolLoop.{
  Context, Turn, CompletionResult, push_message, assistant_message, system_note, has_called,
}
use ethixweb_ai_csr.Conversation.ToolLoop.Calls.{Ran, run_requests, executed, not_run}
use ethixweb_ai_csr.Conversation.ToolLoop.Backstops.{
  is_empty, needs_emergency_check, emergency_call, backstops, requested,
}

abbrev pub max_tool_iterations : ℕ
max_tool_iterations = 5

-- `appendResponseSegment`
unfoldable pub append_response_segment : Text → Text → Text
unfolding trim_end trim_start
append_response_segment [] next = next
append_response_segment existing [] = existing
append_response_segment existing next = trim_end existing ++ (32 ∷ trim_start next)

abbrev answer_first_lookup_tools : List String
answer_first_lookup_tools = "getServiceAreas" ∷ "getBusinessHours" ∷ []

abbrev silent_lookup_tools : List String
silent_lookup_tools = "searchCustomer" ∷ "lookupPreviousCalls" ∷ "escalateEmergency" ∷ []

pub data Next (O : Type 0) : Type 0 where
  continues breaks : Turn O → Next O
  throws : Next O

module _ {O : Type 0} where
  -- Whether the model is told, once, to keep the call moving.
  stalls : Context O → CompletionResult O → Turn O → Bool
  unfolding has_words
  stalls c turn st =
      let w = c.wording in
      let said = c.command.transcript in
      not st.kept_call_moving
      && not turn.interrupted
      && not turn.provider_failed
      && not (is_some st.escalation)
      && not (is_some st.human_transfer)
      && not (w.looks_like_sign_off said)
      && not (w.is_hold_request said)
      && not (w.trails_off said)
      && (w.is_stalled_reply st.response_text
          || (not (has_words st.response_text)
              && (turn.only_repeated || is_some st.emergency_pre_check_output)))

  without_requests : Context O → CompletionResult O → Turn O → Next O
  unfolding push_message stalls
  without_requests c turn st =
      if stalls c turn st
      then continues (
          push_message (system_note c.keep_call_moving_note)
            (record st { kept_call_moving = true; continuing_stalled_reply = true }))
      else breaks st

  ran_only_silent_lookups : CompletionResult O → Bool → List (AiToolCallRequest (Json O)) → Bool
  unfolding trim_start trim_end split_tokens includes
  ran_only_silent_lookups turn ran_only_backstops calls =
      let answered_before_lookup =
        leb 8 (length (split_tokens (trim_end (trim_start turn.text)))) in
      ran_only_backstops
      || every
          (λ call.
            includes call.name silent_lookup_tools
            || (answered_before_lookup && includes call.name answer_first_lookup_tools))
          calls

  -- Whether the reply is complete once the requests have been run.
  is_done : Context O → CompletionResult O → Bool → Ran O → Bool
  unfolding has_words
  is_done c turn only_silent ran =
      let said = has_words turn.text in
      turn.interrupted
      || (only_silent
          && said
          && not (c.wording.is_stalled_reply turn.text)
          && not ran.escalated_this_iteration)
      || (only_silent
          && not ran.escalated_this_iteration
          && said
          && c.wording.looks_like_sign_off c.command.transcript)
      || (ran.human_transferred_this_iteration && said)

  with_requests :
      Context O → CompletionResult O → Bool → List (AiToolCallRequest (Json O)) → Turn O → Next O
  unfolding is_done ran_only_silent_lookups run_requests
  with_requests c turn ran_only_backstops calls st =
      let ran = run_requests c calls st in
      if is_done c turn (ran_only_silent_lookups turn ran_only_backstops calls) ran
      then breaks ran.turn
      else continues ran.turn

  -- What is done with the requests of a completion, of which the first may be missing.
  dispatch_calls :
      Context O → CompletionResult O → Bool → List (AiToolCallRequest (Json O)) → Turn O → Next O
  unfolding push_message without_requests with_requests is_empty
  dispatch_calls c turn ran_only_backstops [] st =
      without_requests c turn
        (if is_empty turn.text then st else push_message (assistant_message turn.text []) st)
  dispatch_calls c turn ran_only_backstops (call ∷ calls) st =
      with_requests c turn ran_only_backstops (call ∷ calls)
        (push_message (assistant_message turn.text (call ∷ calls)) st)

  pub taken : Context O → Option (CompletionResult O) → Turn O → Next O
  unfolding append_response_segment dispatch_calls requested is_empty
  taken c none st = if st.continuing_stalled_reply then breaks st else throws
  taken c (some turn) st =
      dispatch_calls c turn
        (is_empty turn.tool_calls && not (is_empty (backstops c turn st.conversation)))
        (requested c turn st.conversation)
        (record st {
          continuing_stalled_reply = false;
          response_text = append_response_segment st.response_text turn.text;
          interrupted = turn.interrupted;
        })

  begin_round : Turn O → Turn O
  unfolding compress_messages
  begin_round st = record st {
    iteration_count = suc st.iteration_count;
    conversation = record st.conversation {
      messages = compress_messages default_max_messages st.conversation.messages;
    };
  }

  -- Whether nothing has been said for so long that no further round is made.
  is_spent : Context O → ℕ → Turn O → Bool
  unfolding has_words
  is_spent c iteration st = ltb 0 iteration && not (has_words st.response_text) && c.late iteration

  round : Context O → ℕ → Turn O → Next O
  unfolding taken begin_round is_spent
  round c iteration st =
      let st' = begin_round st in
      if is_spent c iteration st
      then breaks st
      else taken c (c.stream_one_completion iteration st'.conversation st'.response_text) st'

  -- The rounds that are left. A completion that throws ends the turn, which is then none.
  unfoldable pub tool_loop : Context O → ℕ → Turn O → Option (Turn O)
  unfolding round
  tool_loop c zero st = some st
  tool_loop c (suc left) st = elim (round c (max_tool_iterations - suc left) st) [
    | continues st' ↦ tool_loop c left st'
    | breaks st' ↦ some st'
    | throws ↦ none
  ]

  -- The check of an emergency in front of the loop.
  unfoldable pub emergency_pre_check : Context O → Turn O → Turn O
  unfolding needs_emergency_check emergency_call push_message executed
  emergency_pre_check c st =
      let description =
        if c.gas_leak then codes "gas leak: " ++ c.emergency_text else c.emergency_text in
      let call = emergency_call c description st.conversation in
      let ran = executed c call (not_run (push_message (assistant_message [] (call ∷ [])) st)) in
      if needs_emergency_check c (c.wording.looks_emergency_adjacent c.emergency_text || c.gas_leak)
        st.conversation
      then record ran.turn { emergency_pre_check_output = ran.last_output }
      else st

  unfoldable pub run_turn_tools : Context O → Turn O → Option (Turn O)
  unfolding emergency_pre_check tool_loop
  run_turn_tools c st = tool_loop c max_tool_iterations (emergency_pre_check c st)
