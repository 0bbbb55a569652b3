-- ===== src/Conversation/Ending.antt =====
-- application/end-conversation.use-case.ts of apps/voice-orchestrator/src/modules/conversation. `others` is
-- what other requests do meanwhile, as in Changes. What is sent elsewhere is the list of the sends, each of
-- which is tried once; only an error of the event bus is not caught.
pub mod Sends
pub mod Once
use ethixweb_ai_csr.Common.{
  ℕ, ◌+◌, ◌-◌, ◌/◌, Bool, true, false, List, [], ◌∷◌, ◌++◌, Option, none, some, String, is_some,
  if◌then◌else◌,
}
use ethixweb_ai_csr.Conversation.States.{ended}
use ethixweb_ai_csr.Conversation.Records.{Text, Speaker, TranscriptTurn, Conversation}
use ethixweb_ai_csr.Conversation.Repository.{Repository, find_by_id}
use ethixweb_ai_csr.Conversation.Changes.{
  Answer, answered, conversation_not_found, conversation_save_conflict, failed,
}

pub record EndConversationCommand : Type 0 where
  pub tenant_id : String
  pub conversation_id : String
  pub end_reason : String

pub record SentTurn (J : Type 0) : Type 0 where
  pub turn_index : ℕ
  pub speaker : Speaker
  pub text : Text
  pub confidence : Option J

-- The sends: the end of the call and its usage to core-api, the release of the capacity, the event.
pub data Effect (J : Type 0) : Type 0 where
  end_call : String → Bool → String → ℕ → List (SentTurn J) → Effect J
  record_usage : String → String → Option String → ℕ → String → ℕ → Effect J
  release_capacity : String → String → Effect J
  conversation_ended : String → String → String → ℕ → Effect J

-- `Math.max(0, Math.round((endedAt - startedAt) / 1000))`
unfoldable pub duration_seconds : ℕ → ℕ → ℕ
duration_seconds started_at ended_at = (ended_at - started_at + 500) / 1000

module _ {J : Type 0} where
  sent_turns : ℕ → List (TranscriptTurn J) → List (SentTurn J)
  sent_turns index [] = []
  sent_turns index (t ∷ ts) =
      record { turn_index = index; speaker = t.speaker; text = t.text; confidence = t.confidence }
      ∷ sent_turns (index + 1) ts

  release_effects : String → Option String → List (Effect J)
  release_effects tenant_id none = []
  release_effects tenant_id (some reservation_id) = release_capacity tenant_id reservation_id ∷ []

  unfoldable pub ending_effects : Conversation J → ℕ → String → List (Effect J)
  unfolding sent_turns release_effects duration_seconds
  ending_effects saved now end_reason =
      end_call saved.call_id (is_some saved.lead_id) end_reason now (sent_turns 0 saved.transcript)
      ∷ record_usage saved.business_id saved.call_id saved.lead_id
          (duration_seconds saved.started_at now) saved.id now
      ∷ (release_effects saved.tenant_id saved.capacity_reservation_id
          ++ conversation_ended saved.tenant_id saved.id end_reason now ∷ [])

  unfoldable pub ended_conversation : ℕ → String → Conversation J → Conversation J
  ended_conversation now end_reason c = record c {
    state = ended;
    ended_at = some now;
    end_reason = some end_reason;
  }

  -- An error of the event bus is thrown, behind the sends.
  published : Option String → Conversation J → Answer J
  published none saved = answered saved
  published (some error) saved = failed error

module _ {J : Type 0} (repository : Repository J) where
  open repository use {State, save}

  -- The end of `execute` for the conversation that has been saved.
  finish : ℕ → String → Option String → State → Conversation J → State × Answer J × List (Effect J)
  unfolding ending_effects published
  finish now end_reason publish_error s saved =
      (s, published publish_error saved, ending_effects saved now end_reason)

  retry_saved :
      EndConversationCommand
      → ℕ
      → Option String
      → State × Option (Conversation J)
      → State × Answer J × List (Effect J)
  unfolding finish
  retry_saved c now publish_error (s, none) = (s, conversation_save_conflict c.conversation_id, [])
  retry_saved c now publish_error (s, some saved) = finish now c.end_reason publish_error s saved

  -- `resolveLostRace`
  retry_end :
      EndConversationCommand
      → ℕ
      → Option String
      → (State → State)
      → Option (Conversation J)
      → State
      → State × Answer J × List (Effect J)
  unfolding retry_saved ended_conversation
  retry_end c now publish_error others none s = (s, conversation_not_found c.conversation_id, [])
  retry_end c now publish_error others (some fresh) s =
      if is_some fresh.ended_at
      then (s, answered fresh, [])
      else retry_saved c now publish_error
          (save (ended_conversation now c.end_reason fresh) (others s))

  saved_end :
      EndConversationCommand
      → ℕ
      → Option String
      → (ℕ → State → State)
      → State × Option (Conversation J)
      → State × Answer J × List (Effect J)
  unfolding retry_end finish
  saved_end c now publish_error others (s, some saved) =
      finish now c.end_reason publish_error s saved
  saved_end c now publish_error others (s, none) =
      let s' = others 1 s in
      retry_end c now publish_error (others 2)
        (find_by_id repository c.tenant_id c.conversation_id s') s'

  read_end :
      EndConversationCommand
      → ℕ
      → Option String
      → (ℕ → State → State)
      → Option (Conversation J)
      → State
      → State × Answer J × List (Effect J)
  unfolding saved_end ended_conversation
  read_end c now publish_error others none s = (s, conversation_not_found c.conversation_id, [])
  read_end c now publish_error others (some conversation) s =
      if is_some conversation.ended_at
      then (s, answered conversation, [])
      else saved_end c now publish_error others
          (save (ended_conversation now c.end_reason conversation) (others 0 s))

  -- `EndConversationUseCase.execute`
  unfoldable pub end_conversation :
      EndConversationCommand
      → ℕ
      → Option String
      → (ℕ → State → State)
      → State
      → State × Answer J × List (Effect J)
  unfolding read_end
  end_conversation c now publish_error others s =
      read_end c now publish_error others (find_by_id repository c.tenant_id c.conversation_id s) s
