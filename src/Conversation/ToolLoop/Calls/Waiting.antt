-- ===== src/Conversation/ToolLoop/Calls/Waiting.antt =====
-- handle-turn.use-case.ts: what the requests of one completion leave in the messages.
use ethixweb_ai_csr.Common.{
  ◌≡◌, refl, ◌∙◌, inl, inr, Bool, true, false, Bool-cases, ◌&&◌, List, [], ◌∷◌, Option, none, some,
  String, map, eq_refl, is_some, if◌then◌else◌,
}
use ethixweb_ai_csr.Conversation.Records.{
  AiMessage, AiToolCallRequest, Conversation, EmergencyAction, forward_call,
}
use ethixweb_ai_csr.Conversation.Window.Requests.{awaiting, requests_after, requests_after-append}
use ethixweb_ai_csr.Conversation.Json.{Json, get_text}
use ethixweb_ai_csr.Conversation.Tools.{called}
use ethixweb_ai_csr.Conversation.Tools.Runs.{ToolRun, run_tool}
use ethixweb_ai_csr.Conversation.Tools.Runs.Kept.{Kept, run_tool-Kept}
use ethixweb_ai_csr.Conversation.ToolLoop.{Context, Turn, push_message, tool_message, system_note}
use ethixweb_ai_csr.Conversation.ToolLoop.Calls.{
  stronger, Ran, with_verdict, shown, mark_called, with_action, executed, answer_again, run_call,
  run_calls, not_run, run_requests,
}

stronger_forwarded :
    (escalates : Bool) (action : Option EmergencyAction) (answer : Option String)
    → action ≡ some forward_call
    → (if escalates then stronger action answer else action) ≡ some forward_call
unfolding stronger
stronger_forwarded true action answer e = rw e refl
stronger_forwarded false action answer e = e

module _ {O : Type 0} where
  -- In the conversation, and in what is to be saved of it, these requests wait; and a forwarded call is not
  -- forgotten.
  pub record Awaits (start : Turn O) (ids : List String) (st : Turn O) : Type 0 where
    pub conversation : requests_after (some []) st.conversation.messages ≡ some ids
    pub pending : requests_after (some []) st.pending_new_messages ≡ some ids
    pub forwarded :
        start.conversation.strongest_emergency_action ≡ some forward_call
        → st.conversation.strongest_emergency_action ≡ some forward_call
    pub rounds : st.iteration_count ≡ start.iteration_count

  pub push_message-Awaits :
      (start st : Turn O) (ids ids' : List String) (m : AiMessage (Json O))
      → awaiting (some ids) m ≡ some ids'
      → Awaits start ids st
      → Awaits start ids' (push_message m st)
  unfolding push_message
  push_message-Awaits start st ids ids' m e h = record {
    conversation =
        rw (requests_after-append (some []) st.conversation.messages m, h.conversation) e;
    pending = rw (requests_after-append (some []) st.pending_new_messages m, h.pending) e;
    forwarded = h.forwarded;
    rounds = h.rounds;
  }

  with_verdict-Kept :
      (before : Conversation (Json O)) (zip : String) (verdict : Option Bool) (run : ToolRun O)
      → Kept before run
      → Kept before (with_verdict zip verdict run)
  unfolding with_verdict
  with_verdict-Kept before zip none run h = h
  with_verdict-Kept before zip (some inside) run h = record {
    messages = h.messages;
    action = h.action;
  }

  shown-Kept :
      (c : Context O) (before : Conversation (Json O)) (call : AiToolCallRequest (Json O))
      (run : ToolRun O)
      → Kept before run
      → Kept before (shown c call run)
  unfolding shown
  shown-Kept c before call run h =
      elim (Bool-cases (called "transferToHuman" call.name && is_some run.human_transfer)) [
        | inl started ↦ rw started (record { messages = h.messages; action = h.action })
        | inr another ↦ elim (Bool-cases (called "getServiceAreas" call.name)) [
          | inl areas ↦ rw (another, areas) (with_verdict-Kept before _ _ run h)
          | inr rest ↦ rw (another, rest) h
        ]
      ]

  pub executed-Awaits :
      (c : Context O) (start : Turn O) (call : AiToolCallRequest (Json O)) (ids : List String)
      (ran : Ran O)
      → Awaits start (call.id ∷ ids) ran.turn
      → Awaits start ids (executed c call ran).turn
  unfolding executed mark_called with_action push_message
  executed-Awaits c start call ids ran h =
      let st = ran.turn in
      let marked = mark_called c.emergency_text call.name st.conversation in
      let run = run_tool c.gates marked call st.response_text st.gate_rejections in
      let kept =
        shown-Kept c marked call run
          (run_tool-Kept c.gates marked call st.response_text st.gate_rejections) in
      let told = shown c call run in
      let m = tool_message call.id (c.stringify told.output) in
      let answers : awaiting (some (call.id ∷ ids)) m ≡ some ids = rw (eq_refl call.id) refl in
      record {
        conversation =
            rw
              (
                kept.messages,
                requests_after-append (some []) st.conversation.messages m,
                h.conversation,
              )
              answers;
        pending = rw (requests_after-append (some []) st.pending_new_messages m, h.pending) answers;
        forwarded = λ e.
            stronger_forwarded (called "escalateEmergency" call.name)
              told.conversation.strongest_emergency_action (get_text "action" run.output)
              (kept.action ∙ h.forwarded e);
        rounds = h.rounds;
      }

  Awaits-if :
      (b : Bool) (start : Turn O) (ids : List String) (x y : Ran O)
      → Awaits start ids x.turn
      → Awaits start ids y.turn
      → Awaits start ids (if b then x else y).turn
  Awaits-if true start ids x y h h' = h
  Awaits-if false start ids x y h h' = h'

  answer_again-Awaits :
      (c : Context O) (start : Turn O) (call : AiToolCallRequest (Json O)) (ids : List String)
      (checked : Option (Json O)) (ran : Ran O)
      → Awaits start (call.id ∷ ids) ran.turn
      → Awaits start ids (answer_again c call checked ran).turn
  unfolding answer_again
  answer_again-Awaits c start call ids none ran h = executed-Awaits c start call ids ran h
  answer_again-Awaits c start call ids (some output) ran h =
      let m = tool_message call.id (c.stringify output) in
      Awaits-if (called "escalateEmergency" call.name) start ids
        (record ran { turn = push_message m ran.turn }) (executed c call ran)
        (push_message-Awaits start ran.turn (call.id ∷ ids) ids m (rw (eq_refl call.id) refl) h)
        (executed-Awaits c start call ids ran h)

  run_calls-Awaits :
      (c : Context O) (start : Turn O) (calls : List (AiToolCallRequest (Json O))) (ran : Ran O)
      → Awaits start (map (λ call. call.id) calls) ran.turn
      → Awaits start [] (run_calls c calls ran).turn
  unfolding run_calls run_call
  run_calls-Awaits c start [] ran h = h
  run_calls-Awaits c start (call ∷ calls) ran h =
      let ids = map (λ call. call.id) calls in
      run_calls-Awaits c start calls (run_call c call ran)
        (answer_again-Awaits c start call ids ran.turn.emergency_pre_check_output ran h)

  pub run_requests-Awaits :
      (c : Context O) (start : Turn O) (calls : List (AiToolCallRequest (Json O))) (st : Turn O)
      → Awaits start (map (λ call. call.id) calls) st
      → Awaits start [] (run_requests c calls st).turn
  unfolding run_requests not_run
  run_requests-Awaits c start calls st h =
      let ran = run_calls c calls (not_run st) in
      let done = run_calls-Awaits c start calls (not_run st) h in
      elim (Bool-cases ran.crm_just_became_unavailable) [
        | inl missing ↦ rw missing (
            push_message-Awaits start ran.turn [] [] (system_note c.crm_unavailable_note) refl done)
        | inr there ↦ rw there done
      ]
