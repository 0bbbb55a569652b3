-- ===== src/Conversation/Changes.antt =====
-- application/transition-conversation-state.use-case.ts and interrupt-conversation.use-case.ts of
-- apps/voice-orchestrator/src/modules/conversation. `others` is what other requests do meanwhile: at 0
-- between the read and the save, at 1 before the second read, at 2 before the second save.
pub mod Kept
pub mod Notes
use ethixweb_ai_csr.Common.{
  ℕ, Bool, true, false, ◌||◌, List, [], ◌∷◌, ◌++◌, Option, none, some, String, is_some,
  if◌then◌else◌, codes, length, includes_codes, ltb,
}
use mathlib.Core.List.{reverse}
use ethixweb_ai_csr.Conversation.States.{ConversationState, silence, is_valid_transition}
use ethixweb_ai_csr.Conversation.Records.{
  Text, AiRole, system, user, assistant, tool, AiMessage, Conversation,
}
use ethixweb_ai_csr.Conversation.Repository.{Repository, find_by_id}

-- What a use-case returns or throws; `failed` is an error from outside the module.
pub data Answer (J : Type 0) : Type 0 where
  answered : Conversation J → Answer J
  conversation_not_found conversation_already_ended conversation_save_conflict : String → Answer J
  illegal_transition : ConversationState → ConversationState → Answer J
  failed : String → Answer J

abbrev pub interruption_note : Text
interruption_note =
    codes
      "[the caller interrupted before you finished saying this — don't assume they heard all of it]"

unfoldable pub noted : Text → Text
noted content =
    if includes_codes content interruption_note
    then content
    else content ++ (codes " " ++ interruption_note)

module _ {J : Type 0} where
  -- The scan from the last message on; the list is reversed.
  annotate_back :
      AiRole → AiMessage J → List (AiMessage J) → List (AiMessage J) → List (AiMessage J)
  unfolding noted
  annotate_back user m ms rest = m ∷ ms
  annotate_back assistant m ms rest =
      if ltb 0 (length m.content) then record m { content = noted m.content } ∷ ms else m ∷ rest
  annotate_back system m ms rest = m ∷ rest
  annotate_back tool m ms rest = m ∷ rest

  annotate_reversed : List (AiMessage J) → List (AiMessage J)
  unfolding annotate_back
  annotate_reversed [] = []
  annotate_reversed (m ∷ ms) = annotate_back m.role m ms (annotate_reversed ms)

  -- `annotateInterruptedResponse`
  unfoldable pub annotate_interrupted_response : Conversation J → Conversation J
  unfolding annotate_reversed
  annotate_interrupted_response c = record c {
    messages = reverse (annotate_reversed (reverse c.messages));
  }

module _ {J : Type 0} (repository : Repository J) where
  open repository use {State, save}

  saved_or_conflict : String → State × Option (Conversation J) → State × Answer J
  saved_or_conflict id (s, some saved) = (s, answered saved)
  saved_or_conflict id (s, none) = (s, conversation_save_conflict id)

  -- The second read of a use-case that sets the state and changes nothing else but by `change`.
  retry :
      String
      → ConversationState
      → (Conversation J → Conversation J)
      → (State → State)
      → Option (Conversation J)
      → State
      → State × Answer J
  unfolding saved_or_conflict
  retry id to_state change others none s = (s, conversation_not_found id)
  retry id to_state change others (some fresh) s =
      if is_some fresh.ended_at
      then (s, conversation_already_ended id)
      else if is_valid_transition fresh.state to_state
      then saved_or_conflict id (save (change (record fresh { state = to_state })) (others s))
      else (s, illegal_transition fresh.state to_state)

  -- `resolveLostRace`, where the first save is lost.
  first_saved :
      String
      → String
      → ConversationState
      → (Conversation J → Conversation J)
      → (ℕ → State → State)
      → State × Option (Conversation J)
      → State × Answer J
  unfolding retry
  first_saved tenant_id id to_state change others (s, some saved) = (s, answered saved)
  first_saved tenant_id id to_state change others (s, none) =
      let s' = others 1 s in
      retry id to_state change (others 2) (find_by_id repository tenant_id id s') s'

  first_read :
      String
      → String
      → ConversationState
      → (Conversation J → Conversation J)
      → (ℕ → State → State)
      → Option (Conversation J)
      → State
      → State × Answer J
  unfolding first_saved
  first_read tenant_id id to_state change others none s = (s, conversation_not_found id)
  first_read tenant_id id to_state change others (some c) s =
      if is_some c.ended_at
      then (s, conversation_already_ended id)
      else if is_valid_transition c.state to_state
      then first_saved tenant_id id to_state change others
          (save (change (record c { state = to_state })) (others 0 s))
      else (s, illegal_transition c.state to_state)

  -- `TransitionConversationStateUseCase.execute`
  unfoldable pub transition_conversation_state :
      String → String → ConversationState → (ℕ → State → State) → State → State × Answer J
  unfolding first_read
  transition_conversation_state tenant_id id to_state others s =
      first_read tenant_id id to_state (λ c. c) others (find_by_id repository tenant_id id s) s

  -- `InterruptConversationUseCase.execute`
  unfoldable pub interrupt_conversation :
      String → String → (ℕ → State → State) → State → State × Answer J
  unfolding first_read annotate_interrupted_response
  interrupt_conversation tenant_id id others s =
      first_read tenant_id id silence annotate_interrupted_response others
        (find_by_id repository tenant_id id s) s
