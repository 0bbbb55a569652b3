-- ===== src/Conversation/Turns.antt =====
-- How application/handle-turn.use-case.ts of apps/voice-orchestrator/src/modules/conversation saves a turn:
-- `saveTurnResult` and `persistProgress`. `others` is what other requests do meanwhile, as in Changes.
pub mod Additions
pub mod Saved
use ethixweb_ai_csr.Common.{
  ℕ, Bool, true, false, ◌||◌, List, [], ◌∷◌, ◌++◌, Option, none, some, String, is_some,
  if◌then◌else◌, drop, length,
}
use ethixweb_ai_csr.Conversation.Records.{AiMessage, TranscriptTurn, Conversation}
use ethixweb_ai_csr.Conversation.Repository.{Repository, find_by_id}

-- `a ?? b`
abbrev pub first_some {ℓ} : {A : Type ℓ} → Option A → Option A → Option A
first_some none b = b
first_some (some a) b = some a

module _ {J : Type 0} where
  -- The retry of a lost save: what the turn adds is put on what another writer has stored.
  unfoldable pub merged :
      Conversation J
      → Conversation J
      → List (TranscriptTurn J)
      → List (AiMessage J)
      → Conversation J
  merged conversation fresh new_transcript_entries new_messages = record fresh {
    transcript = fresh.transcript ++ new_transcript_entries;
    messages = fresh.messages ++ new_messages;
    lead_id = first_some conversation.lead_id fresh.lead_id;
    customer_id = first_some conversation.customer_id fresh.customer_id;
    customer_capture_attempted =
        conversation.customer_capture_attempted || fresh.customer_capture_attempted;
    crm_integration_unavailable =
        conversation.crm_integration_unavailable || fresh.crm_integration_unavailable;
    lead_ever_attempted = conversation.lead_ever_attempted || fresh.lead_ever_attempted;
    emergency_ever_checked = conversation.emergency_ever_checked || fresh.emergency_ever_checked;
    search_customer_ever_checked =
        conversation.search_customer_ever_checked || fresh.search_customer_ever_checked;
    service_area_checked = conversation.service_area_checked || fresh.service_area_checked;
    business_hours_checked = conversation.business_hours_checked || fresh.business_hours_checked;
    last_service_area_check =
        first_some conversation.last_service_area_check fresh.last_service_area_check;
    last_business_hours_check =
        first_some conversation.last_business_hours_check fresh.last_business_hours_check;
    last_emergency_checked_transcript =
        first_some conversation.last_emergency_checked_transcript
          fresh.last_emergency_checked_transcript;
  }

module _ {J : Type 0} (repository : Repository J) where
  open repository use {State, save}

  -- `Object.assign(conversation, saved)`: the turn goes on with what has been saved.
  synced : Conversation J → State × Option (Conversation J) → State × Conversation J
  synced conversation (s, none) = (s, conversation)
  synced conversation (s, some saved) = (s, saved)

  retry_turn :
      Conversation J
      → List (TranscriptTurn J)
      → List (AiMessage J)
      → (State → State)
      → Option (Conversation J)
      → State
      → State × Conversation J
  unfolding synced merged
  retry_turn conversation new_transcript_entries new_messages others none s = (s, conversation)
  retry_turn conversation new_transcript_entries new_messages others (some fresh) s =
      if is_some fresh.ended_at
      then (s, conversation)
      else synced conversation
          (save (merged conversation fresh new_transcript_entries new_messages) (others s))

  saved_turn :
      Conversation J
      → List (TranscriptTurn J)
      → List (AiMessage J)
      → (ℕ → State → State)
      → State × Option (Conversation J)
      → State × Conversation J
  unfolding retry_turn
  saved_turn conversation new_transcript_entries new_messages others (s, some saved) = (s, saved)
  saved_turn conversation new_transcript_entries new_messages others (s, none) =
      let s' = others 1 s in
      retry_turn conversation new_transcript_entries new_messages (others 2)
        (find_by_id repository conversation.tenant_id conversation.id s') s'

  -- `saveTurnResult`, with the conversation as the turn goes on with it.
  unfoldable pub save_turn_result :
      Conversation J
      → List (TranscriptTurn J)
      → List (AiMessage J)
      → (ℕ → State → State)
      → State
      → State × Conversation J
  unfolding saved_turn
  save_turn_result conversation new_transcript_entries new_messages others s =
      saved_turn conversation new_transcript_entries new_messages others
        (save conversation (others 0 s))

  -- `persistProgress`, with `transcriptSavedThrough` and `pendingNewMessages` before and after it.
  unfoldable pub persist_progress :
      Conversation J
      → ℕ
      → List (AiMessage J)
      → (ℕ → State → State)
      → State
      → State × Conversation J × ℕ × List (AiMessage J)
  persist_progress conversation transcript_saved_through pending_new_messages others s =
      let (s', conversation') =
        save_turn_result conversation (drop transcript_saved_through conversation.transcript)
          pending_new_messages others s in
      (s', conversation', length conversation'.transcript, [])
