-- ===== src/Conversation/Turns/Saved.antt =====
-- handle-turn.use-case.ts: what becomes of the words of a turn, whatever else is saved meanwhile.
use ethixweb_ai_csr.Common.{◌≡◌, ◌≢◌, ◌⊎◌, true, List, Option, none, some, is_some}
use ethixweb_ai_csr.Conversation.Records.{AiMessage, TranscriptTurn, Conversation}
use ethixweb_ai_csr.Conversation.Repository.{Repository, own_key, next_version}
use ethixweb_ai_csr.Conversation.Turns.Additions.{Adds}

module _ {J : Type 0} (repository : Repository J) where
  open repository use {State, IsValid, stored, save}

  -- What a turn on a conversation has stored, for what others have stored by then in the states right
  -- before its first and its second save: its own conversation, in place of the one that it has read; or
  -- its entries and messages, on that of the others.
  abbrev pub Written :
      Conversation J
      → Conversation J
      → List (TranscriptTurn J)
      → List (AiMessage J)
      → State
      → State
      → Conversation J
      → Type 0
  Written base own entries messages first second saved =
      ((saved ≡ next_version own) × (stored (own_key own) first ≡ some base))
      ⊎ ((fresh : Conversation J) × (stored (own_key own) second ≡ some fresh)
          × (fresh.ended_at ≡ none)
          × Adds own fresh entries messages saved)

  -- The turn goes on with what is stored, of which this holds; or nothing of it has been stored, because
  -- the conversation was gone or over at the second read in the state `s`, or was saved once more behind
  -- that read.
  abbrev pub Kept :
      Conversation J
      → (Conversation J → Type 0)
      → (State → State)
      → State
      → State × Conversation J
      → Type 0
  Kept own P others s r =
      ((stored (own_key own) r.0 ≡ some r.1) × P r.1)
      ⊎ ((r.1 ≡ own)
          × ((stored (own_key own) s ≡ none)
              ⊎ (((c : Conversation J) × (stored (own_key own) s ≡ some c)
                    × (is_some c.ended_at ≡ true))
                  ⊎ (stored (own_key own) (others s) ≢ stored (own_key own) s))))

  abbrev Stored :
      Conversation J → (Conversation J → Type 0) → State × Option (Conversation J) → Type 0
  Stored own P r =
      (saved : Conversation J) × (r.1 ≡ some saved)
      × (stored (own_key own) r.0 ≡ some saved)
      × P saved
