-- ===== src/Conversation/ToolLoop/Rounds/Awaiting.antt =====
-- handle-turn.use-case.ts: what one completion leaves in the messages.
use ethixweb_ai_csr.Common.{
  ℕ, ◌≡◌, refl, inl, inr, Bool, true, false, Bool-cases, List, [], ◌∷◌, Option, none, some, map,
  if◌then◌else◌,
}
use ethixweb_ai_csr.Conversation.Records.{Text, AiToolCallRequest, Conversation}
use ethixweb_ai_csr.Conversation.Json.{Json}
use ethixweb_ai_csr.Conversation.ToolLoop.{
  Context, Turn, CompletionResult, push_message, assistant_message, system_note,
}
use ethixweb_ai_csr.Conversation.ToolLoop.Calls.{run_requests}
use ethixweb_ai_csr.Conversation.ToolLoop.Calls.Waiting.{
  Awaits, push_message-Awaits, run_requests-Awaits,
}
use ethixweb_ai_csr.Conversation.ToolLoop.Backstops.{is_empty}
use ethixweb_ai_csr.Conversation.ToolLoop.Rounds.{
  Next, continues, breaks, throws, stalls, is_done, ran_only_silent_lookups, without_requests,
  with_requests, dispatch_calls, taken,
}

module _ {O : Type 0} where
  -- The model could not be asked.
  abbrev pub Throws : Context O → Type 0
  Throws c =
      (iteration : ℕ) × (conversation : Conversation (Json O)) × (said : Text)
      × (c.stream_one_completion iteration conversation said ≡ none)

  abbrev pub After : Context O → Turn O → Next O → Type 0
  After c start (continues st) = Awaits start [] st
  After c start (breaks st) = Awaits start [] st
  After c start throws = Throws c

  After-if :
      (b : Bool) (c : Context O) (start : Turn O) (x y : Next O)
      → After c start x
      → After c start y
      → After c start (if b then x else y)
  After-if true c start x y h h' = h
  After-if false c start x y h h' = h'

  without_requests-After :
      (c : Context O) (start : Turn O) (turn : CompletionResult O) (st : Turn O)
      → Awaits start [] st
      → After c start (without_requests c turn st)
  unfolding without_requests
  without_requests-After c start turn st h =
      let told = record st { kept_call_moving = true; continuing_stalled_reply = true } in
      let note = system_note c.keep_call_moving_note in
      After-if (stalls c turn st) c start (continues (push_message note told)) (breaks st)
        (push_message-Awaits start told [] [] note refl (record {
          conversation = h.conversation;
          pending = h.pending;
          forwarded = h.forwarded;
          rounds = h.rounds;
        }))
        h

  with_requests-After :
      (c : Context O) (start : Turn O) (turn : CompletionResult O) (only : Bool)
      (calls : List (AiToolCallRequest (Json O))) (st : Turn O)
      → Awaits start (map (λ call. call.id) calls) st
      → After c start (with_requests c turn only calls st)
  unfolding with_requests
  with_requests-After c start turn only calls st h =
      let ran = run_requests c calls st in
      let done = run_requests-Awaits c start calls st h in
      After-if (is_done c turn (ran_only_silent_lookups turn only calls) ran) c start
        (breaks ran.turn) (continues ran.turn) done done

  dispatch_calls-After :
      (c : Context O) (start : Turn O) (turn : CompletionResult O) (only : Bool)
      (calls : List (AiToolCallRequest (Json O))) (st : Turn O)
      → Awaits start [] st
      → After c start (dispatch_calls c turn only calls st)
  unfolding dispatch_calls
  dispatch_calls-After c start turn only [] st h = elim (Bool-cases (is_empty turn.text)) [
    | inl silent ↦ rw silent (without_requests-After c start turn st h)
    | inr said ↦ rw said (
        without_requests-After c start turn (push_message (assistant_message turn.text []) st)
          (push_message-Awaits start st [] [] (assistant_message turn.text []) refl h))
  ]
  dispatch_calls-After c start turn only (call ∷ calls) st h =
      let m = assistant_message turn.text (call ∷ calls) in
      with_requests-After c start turn only (call ∷ calls) (push_message m st)
        (push_message-Awaits start st [] (map (λ call. call.id) (call ∷ calls)) m refl h)

  -- A completion as it was asked for, of which `none` is one that threw.
  pub taken-After :
      (c : Context O) (start st : Turn O) (completion : Option (CompletionResult O))
      → (completion ≡ none → Throws c)
      → Awaits start [] st
      → After c start (taken c completion st)
  unfolding taken
  taken-After c start st none t h =
      After-if st.continuing_stalled_reply c start (breaks st) throws h (t refl)
  taken-After c start st (some turn) t h = dispatch_calls-After c start turn _ _ _ (record {
    conversation = h.conversation;
    pending = h.pending;
    forwarded = h.forwarded;
    rounds = h.rounds;
  })
