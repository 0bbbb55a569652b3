-- ===== src/Conversation/ToolLoop/Rounds/Answered.antt =====
-- handle-turn.use-case.ts: what the tool loop leaves in the messages, and how often it asks the model.
use ethixweb_ai_csr.Common.{
  ℕ, zero, suc, ◌+◌, ◌-◌, ◌≤◌, ◌≡◌, refl, ◌||◌, ◌⊎◌, inl, inr, Bool, true, false, Bool-cases, [],
  ◌∷◌, ◌++◌, Option, none, some, arith, codes, if◌then◌else◌,
}
use ethixweb_ai_csr.Conversation.Records.{forward_call}
use ethixweb_ai_csr.Conversation.Window.{default_max_messages}
use ethixweb_ai_csr.Conversation.Window.Requests.{IsAnswered, compress_messages-IsAnswered}
use ethixweb_ai_csr.Conversation.ToolLoop.{Context, Turn, push_message, assistant_message}
use ethixweb_ai_csr.Conversation.ToolLoop.Calls.{executed, not_run}
use ethixweb_ai_csr.Conversation.ToolLoop.Calls.Waiting.{
  Awaits, push_message-Awaits, executed-Awaits,
}
use ethixweb_ai_csr.Conversation.ToolLoop.Backstops.{needs_emergency_check, emergency_call}
use ethixweb_ai_csr.Conversation.ToolLoop.Rounds.{
  Next, continues, breaks, throws, max_tool_iterations, taken, begin_round, is_spent, round,
  tool_loop, emergency_pre_check, run_turn_tools,
}
use ethixweb_ai_csr.Conversation.ToolLoop.Rounds.Awaiting.{Throws, After, taken-After}

module _ {O : Type 0} where
  -- After at most so many rounds, no request waits, neither in the conversation nor in what is to be saved.
  pub record Finished (start : Turn O) (rounds : ℕ) (st : Turn O) : Type 0 where
    pub conversation : IsAnswered st.conversation.messages
    pub pending : IsAnswered st.pending_new_messages
    pub forwarded :
        start.conversation.strongest_emergency_action ≡ some forward_call
        → st.conversation.strongest_emergency_action ≡ some forward_call
    pub bounded : st.iteration_count ≤ start.iteration_count + rounds

  -- How the tools of a turn can end. None is what has thrown.
  abbrev pub Ends : Context O → Turn O → ℕ → Option (Turn O) → Type 0
  Ends c start rounds end =
      ((end ≡ none) × Throws c) ⊎ ((st : Turn O) × (end ≡ some st) × Finished start rounds st)

  abbrev Round : Context O → Turn O → Next O → Type 0
  Round c start (continues st) = Finished start 1 st
  Round c start (breaks st) = Finished start 1 st
  Round c start throws = Throws c

  Finished-refl :
      (st : Turn O) (rounds : ℕ)
      → IsAnswered st.conversation.messages
      → IsAnswered st.pending_new_messages
      → Finished st rounds st
  Finished-refl st rounds h p = record {
    conversation = h;
    pending = p;
    forwarded = λ e. e;
    bounded = omega arith;
  }

  Finished-trans :
      (st st' st'' : Turn O) (m n k : ℕ)
      → m + n ≤ k
      → Finished st m st'
      → Finished st' n st''
      → Finished st k st''
  Finished-trans st st' st'' m n k within first then_ = record {
    conversation = then_.conversation;
    pending = then_.pending;
    forwarded = λ e. then_.forwarded (first.forwarded e);
    bounded = let b = first.bounded in let b' = then_.bounded in omega arith;
  }

  begin_round-IsAnswered :
      (st : Turn O)
      → IsAnswered st.conversation.messages
      → IsAnswered (begin_round st).conversation.messages
  unfolding begin_round
  begin_round-IsAnswered st h =
      compress_messages-IsAnswered default_max_messages st.conversation.messages h

  Finished-round : (st st' : Turn O) → Awaits (begin_round st) [] st' → Finished st 1 st'
  unfolding begin_round
  Finished-round st st' h = record {
    conversation = h.conversation;
    pending = h.pending;
    forwarded = h.forwarded;
    bounded = let b = h.rounds in omega arith;
  }

  After-Round :
      (c : Context O) (st : Turn O) (next : Next O)
      → After c (begin_round st) next
      → Round c st next
  After-Round c st (continues st') h = Finished-round st st' h
  After-Round c st (breaks st') h = Finished-round st st' h
  After-Round c st throws h = h

  round-Round :
      (c : Context O) (iteration : ℕ) (st : Turn O)
      → IsAnswered st.conversation.messages
      → IsAnswered st.pending_new_messages
      → Round c st (round c iteration st)
  unfolding round
  round-Round c iteration st h p =
      let st' = begin_round st in
      let completion = c.stream_one_completion iteration st'.conversation st'.response_text in
      let begun : Awaits st' [] st' = record {
        conversation = begin_round-IsAnswered st h;
        pending = p;
        forwarded = λ e. e;
        rounds = refl;
      } in
      elim (Bool-cases (is_spent c iteration st)) [
        | inl spent ↦ rw spent (Finished-refl st 1 h p)
        | inr goes_on ↦ rw goes_on (
            After-Round c st (taken c completion st') (
              taken-After c st' st' completion
                (λ e. (iteration, st'.conversation, st'.response_text, e)) begun))
      ]

  pub tool_loop-Finished :
      (c : Context O) (left : ℕ) (st : Turn O)
      → IsAnswered st.conversation.messages
      → IsAnswered st.pending_new_messages
      → Ends c st left (tool_loop c left st)
  unfolding tool_loop
  tool_loop-Finished c zero st h p = inr (st, refl, Finished-refl st 0 h p)
  tool_loop-Finished c (suc left) st h p =
      by_round (λ st' h' p'. tool_loop-Finished c left st' h' p')
        (round c (max_tool_iterations - suc left) st)
        (round-Round c (max_tool_iterations - suc left) st h p)
    where
      by_round :
          ((st' : Turn O)
            → IsAnswered st'.conversation.messages
            → IsAnswered st'.pending_new_messages
            → Ends c st' left (tool_loop c left st'))
          → (next : Next O) → Round c st next
          → Ends c st (suc left) (elim next [
            | continues st' ↦ tool_loop c left st'
            | breaks st' ↦ some st'
            | throws ↦ none
          ])
      by_round later (continues st') f = elim (later st' f.conversation f.pending) [
        | inl t ↦ inl t
        | inr (st'', e, f') ↦
            inr (st'', e, Finished-trans st st' st'' 1 left (suc left) (omega arith) f f')
      ]
      by_round later (breaks st') f = inr (
        st',
        refl,
        Finished-trans st st' st' 1 left (suc left) (omega arith) f
            (Finished-refl st' left f.conversation f.pending),
      )
      by_round later throws t = inl (refl, t)

  Finished-if :
      (b : Bool) (start : Turn O) (rounds : ℕ) (x y : Turn O)
      → Finished start rounds x
      → Finished start rounds y
      → Finished start rounds (if b then x else y)
  Finished-if true start rounds x y h h' = h
  Finished-if false start rounds x y h h' = h'

  emergency_pre_check-Finished :
      (c : Context O) (st : Turn O)
      → IsAnswered st.conversation.messages
      → IsAnswered st.pending_new_messages
      → Finished st 0 (emergency_pre_check c st)
  unfolding emergency_pre_check not_run
  emergency_pre_check-Finished c st h p =
      let urgent = c.wording.looks_emergency_adjacent c.emergency_text || c.gas_leak in
      let description =
        if c.gas_leak then codes "gas leak: " ++ c.emergency_text else c.emergency_text in
      let call = emergency_call c description st.conversation in
      let m = assistant_message [] (call ∷ []) in
      let asked =
        push_message-Awaits st st [] (call.id ∷ []) m refl
          (record { conversation = h; pending = p; forwarded = λ e. e; rounds = refl }) in
      let ran = executed c call (not_run (push_message m st)) in
      let done = executed-Awaits c st call [] (not_run (push_message m st)) asked in
      Finished-if (needs_emergency_check c urgent st.conversation) st 0
        (record ran.turn { emergency_pre_check_output = ran.last_output }) st
        (record {
          conversation = done.conversation;
          pending = done.pending;
          forwarded = done.forwarded;
          bounded = let b = done.rounds in omega arith;
        })
        (Finished-refl st 0 h p)

  -- If every request in the messages has its result, then so it is after the tools of a turn, in the
  -- conversation as in what is to be saved: each request is followed by its result, in the order of the
  -- requests, whatever the model has asked for, the broker has answered and the window has dropped. The
  -- loop ends within five completions, and a call that the rules forward stays forwarded. It has no end
  -- only where it throws, and then some completion does.
  pub run_turn_tools-Finished :
      (c : Context O) (st : Turn O)
      → IsAnswered st.conversation.messages
      → IsAnswered st.pending_new_messages
      → Ends c st 5 (run_turn_tools c st)
  unfolding run_turn_tools
  run_turn_tools-Finished c st h p =
      let checked = emergency_pre_check-Finished c st h p in
      elim (tool_loop-Finished c max_tool_iterations (emergency_pre_check c st) checked.conversation
        checked.pending) [
          | inl t ↦ inl t
          | inr (st', e, f) ↦ inr (
            st',
            e,
            Finished-trans st (emergency_pre_check c st) st' 0 5 5 (omega arith) checked f,
          )
        ]
