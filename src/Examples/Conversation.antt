-- ===== src/Examples/Conversation.antt =====
-- One call on a Redis of functions: it starts, is interrupted, and ends twice while a turn is saved.
use ethixweb_ai_csr.Common.{
  without_space, concat, ℕ, zero, suc, ◌≤◌, ◌≡◌, ◌≢◌, refl, ◌⊎◌, Bool, true, not, false, List, [],
  ◌∷◌, ◌++◌, Option, none, some, String, arith, str_eq, if◌then◌else◌, is_some, lookup, insert,
  codes, All, length, decimal, codes_eq, leb, ap, inl,
}
use ethixweb_ai_csr.Tenants.{active}
use ethixweb_ai_csr.Examples.Capacity
use ethixweb_ai_csr.Examples.Capacity.{two_calls, nothing}
use ethixweb_ai_csr.Capacity.Admission.{reserve, granted}
use ethixweb_ai_csr.Conversation.States.{qualifying}
use ethixweb_ai_csr.Conversation.Records.{
  Text, user, assistant, tool, caller, AiMessage, TranscriptTurn, Conversation,
}
use ethixweb_ai_csr.Conversation.Window.{compress_messages, find_safe_cut_index}
use ethixweb_ai_csr.Conversation.Window.Pairs.{IsPaired, compress_messages-IsPaired}
use ethixweb_ai_csr.Conversation.Repository.{
  Repository, key, own_key, find_by_id, next_version, swapped,
}
use ethixweb_ai_csr.Conversation.Repository.Redis.{
  HashRedis, HashValue, field_or, Codec, create, save, stored, write, cas_save_script,
}
use ethixweb_ai_csr.Conversation.Repository.Redis.Refinement.{
  IsConsistent, redis_repository, create-IsConsistent,
}
use ethixweb_ai_csr.Conversation.Repository.Redis.RoundTrip.{redis_roundtrip}
use ethixweb_ai_csr.Conversation.Repository.Evolution.{Evolves-refl}
use ethixweb_ai_csr.Conversation.Changes.{noted}
use ethixweb_ai_csr.Conversation.Changes.Kept.{Rely}
use ethixweb_ai_csr.Conversation.Ending.{EndConversationCommand, end_conversation}
use ethixweb_ai_csr.Conversation.Ending.Once.{end_conversation_once}
use ethixweb_ai_csr.Conversation.Ending.Sends.{end_conversation_lem}
use ethixweb_ai_csr.Conversation.Starting.{
  StartConversationCommand, Environment, resolved, serviceable, tenant_not_serviceable, refused,
  start_conversation,
}
use ethixweb_ai_csr.Conversation.Starting.Reservations.{granted_id, Settles, start_conversation_lem}
use ethixweb_ai_csr.Conversation.Speech.{
  Guard, Stream, finished, yields, text_delta, done, end_turn, stream_one_completion,
}
use ethixweb_ai_csr.Conversation.Speech.Whole.{IsSpeakable, stream_one_completion_lem}
use ethixweb_ai_csr.Conversation.Speech.Passing.{deltas, passed, Returns}
use ethixweb_ai_csr.Conversation.Turns.Saved.{Kept}

abbrev pub Hashes : Type 0
Hashes = List (String × String) × (String → String → Option (HashValue (Conversation ℕ)))

abbrev pub set_nx : String → String → Hashes → Hashes × Bool
set_nx k value s = if is_some (lookup k s.0) then (s, false) else ((insert k value s.0, s.1), true)

pub set_nx_reserves_lem :
    (k value : String) (s : Hashes) → (set_nx k value s).1 ≡ not (is_some (lookup k s.0))
set_nx_reserves_lem k value s = ground arith

pub set_nx_keeps :
    (k value other field : String) (s : Hashes)
    → (set_nx k value s).0.1 other field ≡ s.1 other field
set_nx_keeps k value other field s = ground arith

abbrev pub redis : HashRedis (Conversation ℕ)
redis = record {
  State = Hashes;
  get = λ k s. lookup k s.0;
  set_nx = λ k value ttl s. set_nx k value s;
  hget = λ k field s. s.1 k field;
  hset = λ k fields s. (
    s.0,
    λ other field.
        if str_eq k other then field_or fields field (s.1 other field) else s.1 other field,
  );
  expire = λ k ttl s. s;
  set_nx_reserves = λ k value ttl s. set_nx_reserves_lem k value s;
  hget-set_nx = λ k value ttl other field s. set_nx_keeps k value other field s;
  hget-hset = λ k fields other field s. refl;
  hget-expire = λ k ttl other field s pos. refl;
}

abbrev pub codec : Codec ℕ (Conversation ℕ)
codec = record { stringify = λ c. c; parse = λ c. c; parse-stringify = λ c. refl }

abbrev pub empty : Hashes
empty = ([], λ k field. none)

empty-IsConsistent : IsConsistent redis codec empty
empty-IsConsistent = record { held = λ k. (none, (refl, refl)) }

abbrev pub says : Text → TranscriptTurn ℕ
says words = record {
  turn_index = 0;
  speaker = caller;
  text = words;
  confidence = some 90;
  offset_ms = 0;
  at = 5;
}

abbrev pub call : Conversation ℕ
call = record {
  id = "1";
  tenant_id = "t";
  business_id = "b";
  call_id = "k";
  state = qualifying;
  system_prompt = codes "Be kind.";
  llm_model = "m";
  messages =
      record { role = assistant; content = codes "Hi."; tool_call_id = none; tool_calls = [] } ∷ [];
  transcript = says (codes "Hello") ∷ [];
  lead_id = none;
  capacity_reservation_id = some "r";
  started_at = 0;
  ended_at = none;
  end_reason = none;
  caller_ani = some "+1";
  search_customer_ever_checked = true;
  emergency_ever_checked = false;
  strongest_emergency_action = none;
  undelivered_transfer = none;
  last_emergency_checked_transcript = none;
  lead_ever_attempted = false;
  customer_id = none;
  customer_capture_attempted = false;
  customer_details_on_file = none;
  crm_integration_unavailable = false;
  service_area_checked = false;
  last_service_area_check = none;
  business_hours_checked = false;
  last_business_hours_check = none;
  version = 1;
}

redis_roundtrip_example :
    ((create redis codec call empty).1 ≡ true
      → find_by_id (redis_repository redis codec) "t" "1" (create redis codec call empty).0
        ≡ some call)
    × (((save redis codec call empty).1
          ≡ swapped (find_by_id (redis_repository redis codec) "t" "1" empty) call)
        × ((save redis codec call empty ≡ (empty, none))
            ⊎ (find_by_id (redis_repository redis codec) "t" "1" (save redis codec call empty).0
                ≡ some (next_version call)))
        × ((tenant_id id : String)
            → str_eq (own_key call) (key tenant_id id) ≡ false
            → (find_by_id
                  (redis_repository redis codec)
                  tenant_id
                  id
                  (create redis codec call empty).0
                ≡ find_by_id (redis_repository redis codec) tenant_id id empty)
              × (find_by_id
                    (redis_repository redis codec)
                    tenant_id
                    id
                    (save redis codec call empty).0
                  ≡ find_by_id (redis_repository redis codec) tenant_id id empty))
        × IsConsistent redis codec (create redis codec call empty).0
        × IsConsistent redis codec (save redis codec call empty).0)
redis_roundtrip_example = redis_roundtrip redis codec call empty empty-IsConsistent

abbrev pub repository : Repository ℕ
repository = redis_repository redis codec

-- The call is stored, and no other request comes in between.
abbrev pub stored_call : Hashes
stored_call = (create redis codec call empty).0

stored_call-IsConsistent : IsConsistent redis codec stored_call
stored_call-IsConsistent = create-IsConsistent redis codec call empty empty-IsConsistent

pub call_found : find_by_id repository "t" "1" stored_call ≡ some call
unfolding find_by_id key stored create write lookup
call_found = refl

abbrev alone : ℕ → Hashes → Hashes
alone n s = s

alone-Rely : (k : String) (n : ℕ) → Rely repository k (alone n)
alone-Rely k n s v = Evolves-refl repository k s v

abbrev greets : AiMessage ℕ
greets = record { role = assistant; content = codes "Hi."; tool_call_id = none; tool_calls = [] }

-- The note behind the greeting, on the record as it was.
abbrev noted_call : Conversation ℕ
noted_call = record call { messages = record greets { content = noted greets.content } ∷ [] }

abbrev hangs_up : EndConversationCommand
hangs_up = record { tenant_id = "t"; conversation_id = "1"; end_reason = "hangup" }

end_sends_something :
    leb 1 (length (end_conversation repository hangs_up 9000 none alone stored_call).2) ≡ true
unfolding end_conversation find_by_id key stored create write save cas_save_script decimal codes_eq
    lookup insert next_version
end_sends_something = refl

end_sends : (end_conversation repository hangs_up 9000 none alone stored_call).2 ≢ []
end_sends e = let h = end_sends_something in ground (arith, ap length e)

-- The end that comes in between, right before the first save of another that has read the same.
abbrev overtaken : ℕ → Hashes → Hashes
overtaken zero s = (end_conversation repository hangs_up 9000 none alone s).0
overtaken (suc n) s = s

overtaken-Rely : (n : ℕ) → Rely repository (key "t" "1") (overtaken n)
overtaken-Rely zero s v =
    (end_conversation_lem repository hangs_up 9000 none alone s v (alone-Rely (key "t" "1"))).0
overtaken-Rely (suc n) s v = Evolves-refl repository (key "t" "1") s v

end_conversation_once_example :
    (end_conversation repository hangs_up 9500 none overtaken stored_call).2 ≡ []
end_conversation_once_example =
    end_conversation_once repository hangs_up hangs_up 9000 9500 none none alone overtaken
      stored_call stored_call refl stored_call-IsConsistent stored_call-IsConsistent
      (alone-Rely (key "t" "1")) overtaken-Rely end_sends
      (inl (
        Evolves-refl repository (key "t" "1")
          (end_conversation repository hangs_up 9000 none alone stored_call).0
          ((end_conversation_lem repository hangs_up 9000 none alone stored_call
            stored_call-IsConsistent (alone-Rely (key "t" "1"))).0.valid)))

abbrev spoken : Conversation ℕ
spoken = record call { transcript = call.transcript ++ says (codes "My tap leaks") ∷ [] }

abbrev begins : StartConversationCommand
begins = record { tenant_id = "t"; business_id = "b"; call_id = "k"; caller_ani = "+1" }

abbrev environment : Environment
environment = record {
  status = active;
  limits = two_calls;
  business_name = some (codes "Peak Plumbing - Austin");
  reservation_id = "r";
  conversation_id = "1";
  now = 0;
  call_error = none;
  lookup = resolved none;
  prompt = λ existing. some (codes "Be kind.", "m");
  publish_error = none;
}

start_conversation_lem_example :
    ((start_conversation repository Capacity.redis begins environment empty nothing
        ≡ (empty, nothing, tenant_not_serviceable "t" active))
      × (serviceable active ≡ false))
    ⊎ (((start_conversation repository Capacity.redis begins environment empty nothing ≡ (
      empty,
      (reserve Capacity.redis "t" "r" two_calls 0 nothing).0,
      refused (reserve Capacity.redis "t" "r" two_calls 0 nothing).1,
    ))
          × (granted_id repository Capacity.redis
                (reserve Capacity.redis "t" "r" two_calls 0 nothing).1
              ≡ none))
        ⊎ ((id : String) × ((reserve Capacity.redis "t" "r" two_calls 0 nothing).1 ≡ granted id)
            × Settles repository Capacity.redis begins
                (record environment { reservation_id = id })
                (reserve Capacity.redis "t" "r" two_calls 0 nothing).0
                (start_conversation repository Capacity.redis begins environment empty nothing)))
start_conversation_lem_example =
    start_conversation_lem repository Capacity.redis begins environment empty nothing
      empty-IsConsistent

-- A tool's result stands where the cut would be, so the cut moves in front of its request.
abbrev asks : AiMessage ℕ
asks = record {
  role = assistant;
  content = [];
  tool_call_id = none;
  tool_calls = record { id = "c"; name = "search"; arguments = 0 } ∷ [];
}

abbrev answers : AiMessage ℕ
answers = record { role = tool; content = codes "found"; tool_call_id = some "c"; tool_calls = [] }

abbrev asked : AiMessage ℕ
asked = record { role = user; content = codes "yes"; tool_call_id = none; tool_calls = [] }

abbrev many : ℕ → List (AiMessage ℕ) → List (AiMessage ℕ)
many zero ms = ms
many (suc n) ms = asked ∷ many n ms

abbrev messages : List (AiMessage ℕ)
messages = many 20 (asks ∷ answers ∷ many 19 [])

cut_moves : find_safe_cut_index messages 21 ≡ 20
unfolding find_safe_cut_index
cut_moves = refl

messages-IsPaired : IsPaired [] messages
messages-IsPaired = (refl, tt)

compress_messages-IsPaired_example : IsPaired [] (compress_messages 40 messages)
compress_messages-IsPaired_example = compress_messages-IsPaired 40 messages messages-IsPaired

abbrev lets_all : Guard
lets_all = record { State = Unit; apply = λ g segment. (g, segment) }

abbrev two_sentences : Stream ℕ
two_sentences =
    yields false (text_delta (codes "I can help you with that. "))
      (yields false (text_delta (codes "Where are you?")) (yields false (done end_turn) finished))

stream_one_completion_lem_example :
    (without_space (concat (stream_one_completion lets_all two_sentences tt).0.segments)
      ≡ without_space (deltas two_sentences))
    × ((stream_one_completion lets_all two_sentences tt).0.spoken
        ≡ passed lets_all tt (stream_one_completion lets_all two_sentences tt).0.segments)
    × Returns lets_all
        (passed lets_all tt (stream_one_completion lets_all two_sentences tt).0.segments)
        (deltas two_sentences)
        (stream_one_completion lets_all two_sentences tt).0
        (stream_one_completion lets_all two_sentences tt).1
    × ((front : List Text) × (last : List Text) × ((stream_one_completion lets_all two_sentences
            tt).0.segments
          ≡ front ++ last)
        × All IsSpeakable front
        × (length last ≤ 1))
stream_one_completion_lem_example = stream_one_completion_lem lets_all two_sentences tt
