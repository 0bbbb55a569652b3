-- ===== src/Conversation/Repository/Redis.antt =====
-- infrastructure/redis-conversation.repository.ts of apps/voice-orchestrator/src/modules/conversation. The
-- commands of Redis and the JSON codec are parameters; a script runs as one step.
pub mod Refinement
pub mod RoundTrip
use Prim.Native.String.{◌++◌}
use ethixweb_ai_csr.Common.{
  ℕ, suc, ◌*◌, ◌<◌, ◌≡◌, Bool, true, false, not, List, [], ◌∷◌, Option, none, some, String, str_eq,
  if◌then◌else◌, is_some, decimal, codes_eq,
}
use ethixweb_ai_csr.Conversation.Records.{Text, Conversation}
use ethixweb_ai_csr.Conversation.Repository.{key, own_key, next_version}

abbrev pub conversation_ttl_seconds : ℕ
conversation_ttl_seconds = 4 * 60 * 60

-- The value of a field: a version, or a JSON text, whose type `D` is not looked into.
pub data HashValue (D : Type 0) : Type 0 where
  text : Text → HashValue D
  json : D → HashValue D

-- A field that has just been written, or what it was before.
abbrev pub field_or :
    {D : Type 0}
    → List (String × HashValue D)
    → String
    → Option (HashValue D)
    → Option (HashValue D)
field_or [] field old = old
field_or ((f, v) ∷ fields) field old = if str_eq f field then some v else field_or fields field old

-- The clock is part of the state. `hget` finds nothing in what is no hash, where Redis answers with an
-- error, and `set_nx` is used on keys that are never hashes.
pub record HashRedis (D : Type 0) : Type 1 where
  pub State : Type 0
  pub get : String → State → Option String
  pub set_nx : String → String → ℕ → State → State × Bool
  pub hget : String → String → State → Option (HashValue D)
  pub hset : String → List (String × HashValue D) → State → State
  pub expire : String → ℕ → State → State
  pub set_nx_reserves :
      (k value : String) (ttl : ℕ) (s : State) → (set_nx k value ttl s).1 ≡ not (is_some (get k s))
  pub hget-set_nx :
      (k value : String) (ttl : ℕ) (other field : String) (s : State)
      → hget other field (set_nx k value ttl s).0 ≡ hget other field s
  pub hget-hset :
      (k : String) (fields : List (String × HashValue D)) (other field : String) (s : State)
      → hget other field (hset k fields s) ≡ (
          if str_eq k other then field_or fields field (hget other field s) else hget other field s)
  pub hget-expire :
      (k : String) (ttl : ℕ) (other field : String) (s : State)
      → 0 < ttl
      → hget other field (expire k ttl s) ≡ hget other field s

-- `JSON.stringify` and `JSON.parse` on conversations.
pub record Codec (J D : Type 0) : Type 0 where
  pub stringify : Conversation J → D
  pub parse : D → Conversation J
  pub parse-stringify : (c : Conversation J) → parse (stringify c) ≡ c

unfoldable pub call_index_key : String → String → String
call_index_key tenant_id call_id = "conversation-by-call:" ++ (tenant_id ++ (":" ++ call_id))

is_text : {D : Type 0} → HashValue D → Text → Bool
is_text (text current) expected = codes_eq current expected
is_text (json d) expected = false

module _ {D : Type 0} (redis : HashRedis D) where
  open redis use {State, get, set_nx, hget, hset, expire}

  -- The script behind its first command, which has found `current`.
  swap_at : String → Option (HashValue D) → Text → Text → D → ℕ → State → State × Bool
  unfolding is_text
  swap_at k none expected version content ttl s = (s, false)
  swap_at k (some current) expected version content ttl s =
      if is_text current expected
      then (expire k ttl (hset k (("version", text version) ∷ ("data", json content) ∷ []) s), true)
      else (s, false)

  -- `CAS_SAVE_SCRIPT`
  unfoldable pub cas_save_script : String → Text → Text → D → ℕ → State → State × Bool
  unfolding swap_at
  cas_save_script k expected version content ttl s =
      swap_at k (hget k "version" s) expected version content ttl s

  module _ {J : Type 0} (codec : Codec J D) where
    -- Nothing but JSON is ever stored as a conversation.
    parsed : Option (HashValue D) → Option (Conversation J)
    parsed none = none
    parsed (some (text raw)) = none
    parsed (some (json raw)) = some (codec.parse raw)

    unfoldable pub stored : String → State → Option (Conversation J)
    unfolding parsed
    stored k s = parsed (hget k "data" s)

    unfoldable pub save : Conversation J → State → State × Option (Conversation J)
    unfolding cas_save_script
    save c s =
        let next = next_version c in
        let (s', written) =
          cas_save_script (own_key c) (decimal c.version) (decimal next.version)
            (codec.stringify next) conversation_ttl_seconds s in
        (s', if written then some next else none)

    unfoldable pub write : Conversation J → State → State
    write c s = expire (own_key c) conversation_ttl_seconds (
        hset (own_key c)
          (("version", text (decimal c.version)) ∷ ("data", json (codec.stringify c)) ∷ []) s)

    unfoldable pub indexed : String → String → State → Bool
    indexed tenant_id call_id s = is_some (get (call_index_key tenant_id call_id) s)

    -- Whether it does not throw `ConversationAlreadyExistsError`.
    unfoldable pub create : Conversation J → State → State × Bool
    unfolding write
    create c s =
        let (s', reserved) =
          set_nx (call_index_key c.tenant_id c.call_id) c.id conversation_ttl_seconds s in
        if reserved then (write c s', true) else (s', false)
