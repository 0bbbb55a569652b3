-- ===== src/Conversation/Repository.antt =====
-- domain/ports/conversation-repository.port.ts of apps/voice-orchestrator/src/modules/conversation: what the
-- use-cases rely on. infrastructure/redis-conversation.repository.ts keeps it, in the child Redis.
pub mod Evolution
pub mod Redis
use Prim.Native.String.{◌++◌}
use ethixweb_ai_csr.Common.{
  ℕ, suc, ◌≡◌, Bool, true, false, Option, none, some, String, str_eq, if◌then◌else◌, ◌==◌, is_some,
  ◌&&◌,
}
use ethixweb_ai_csr.Conversation.Records.{Conversation}

unfoldable pub key : String → String → String
key tenant_id conversation_id = "conversation:" ++ (tenant_id ++ (":" ++ conversation_id))

module _ {J : Type 0} where
  -- `{ ...conversation, version: conversation.version + 1 }`
  unfoldable pub next_version : Conversation J → Conversation J
  next_version c = record c { version = suc c.version }

  -- The answer of the compare-and-swap on what is stored.
  abbrev pub swapped : Option (Conversation J) → Conversation J → Option (Conversation J)
  swapped none c = none
  swapped (some r) c = if r.version == c.version then some (next_version c) else none

  abbrev pub own_key : Conversation J → String
  own_key c = key c.tenant_id c.id

  abbrev pub or_else : Option (Conversation J) → Option (Conversation J) → Option (Conversation J)
  or_else none o = o
  or_else (some c) o = some c

-- `stored` is what is found under a key, and `indexed` says whether a call has a conversation. `IsValid`
-- holds of the states that the repository leads to.
pub record Repository (J : Type 0) : Type 1 where
  pub State : Type 0
  pub IsValid : State → Type 0
  pub stored : String → State → Option (Conversation J)
  pub indexed : String → String → State → Bool
  pub create : Conversation J → State → State × Bool
  pub save : Conversation J → State → State × Option (Conversation J)
  pub stored_own :
      (k : String) (s : State) (c : Conversation J)
      → IsValid s
      → stored k s ≡ some c
      → own_key c ≡ k
  pub save_swaps :
      (c : Conversation J) (s : State) → IsValid s → (save c s).1 ≡ swapped (stored (own_key c) s) c
  pub stored-save :
      (k : String) (c : Conversation J) (s : State)
      → IsValid s
      → stored k (save c s).0
        ≡ (if str_eq (own_key c) k then or_else (save c s).1 (stored k s) else stored k s)
  pub save-IsValid : (c : Conversation J) (s : State) → IsValid s → IsValid (save c s).0
  pub create_once :
      (c : Conversation J) (s : State)
      → IsValid s
      → (create c s).1 ≡ (if indexed c.tenant_id c.call_id s then false else true)
  pub stored-create :
      (k : String) (c : Conversation J) (s : State)
      → IsValid s
      → stored k (create c s).0
        ≡ (if (create c s).1 && str_eq (own_key c) k then some c else stored k s)
  pub create-IsValid : (c : Conversation J) (s : State) → IsValid s → IsValid (create c s).0

module _ {J : Type 0} (repository : Repository J) where
  open repository use {State, stored}

  unfoldable pub find_by_id : String → String → State → Option (Conversation J)
  find_by_id tenant_id conversation_id s = stored (key tenant_id conversation_id) s
