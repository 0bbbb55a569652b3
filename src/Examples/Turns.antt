-- ===== src/Examples/Turns.antt =====
-- A turn that is repeated, and one whose first run throws.
use ethixweb_ai_csr.Common.{
  ℕ, ◌+◌, ◌≤◌, ◌≡◌, refl, false, List, [], ◌∷◌, none, arith, codes, if◌then◌else◌, length, ◌==◌,
  lookup,
}
use ethixweb_ai_csr.Kernel.Idempotency
use ethixweb_ai_csr.Kernel.Idempotency.{Store}
use ethixweb_ai_csr.Conversation.States.{qualifying}
use ethixweb_ai_csr.Conversation.Records.{Text, Conversation}
use ethixweb_ai_csr.Conversation.Admission.{
  HandleTurnCommand, HandleTurnResult, TurnOutcome, returned, threw, ran, turn_key, handle_turn,
}
use ethixweb_ai_csr.Conversation.Admission.Starts.{
  Event, admits, settles, times_started, times_failed, times_started_most,
}
use ethixweb_ai_csr.Conversation.Admission.Replay.{handle_turn_twice}
use ethixweb_ai_csr.Examples.Conversation.{Hashes, repository, stored_call, call, call_found}

abbrev asks : HandleTurnCommand ℕ
asks = record {
  tenant_id = "t";
  conversation_id = "1";
  idempotency_key = "k1";
  transcript = codes "My tap leaks";
  stt_confidence = none;
  offset_ms = none;
  allowed_tools = [];
}

abbrev reply : HandleTurnResult
reply = record {
  conversation_id = "1";
  response_text = codes "Sorry to hear that.";
  tool_calls_executed = [];
  interrupted = false;
  state = qualifying;
  escalation = none;
  human_transfer = none;
  request_saved = false;
}

abbrev replies : HandleTurnCommand ℕ → Conversation ℕ → Hashes → Hashes × TurnOutcome × List Text
replies c conversation s = (s, returned reply, codes "Sorry to" ∷ codes " hear that." ∷ [])

handle_turn_twice_example :
    ((handle_turn repository replies asks 0 5 stored_call []).0 ≡ stored_call)
    × ((handle_turn repository replies asks 0 5 stored_call []).2 ≡ ran (returned reply))
    × ((handle_turn repository replies asks 0 5 stored_call []).3
        ≡ codes "Sorry to" ∷ codes " hear that." ∷ [])
    × (handle_turn repository replies asks 9 10 stored_call
          (handle_turn repository replies asks 0 5 stored_call []).1
        ≡ (
          stored_call,
          (handle_turn repository replies asks 0 5 stored_call []).1,
          ran (returned reply),
          if length reply.response_text == 0 then [] else reply.response_text ∷ [],
        ))
unfolding Idempotency.live lookup
handle_turn_twice_example =
    handle_turn_twice repository replies asks 0 5 9 10 stored_call stored_call stored_call [] call
      call reply (codes "Sorry to" ∷ codes " hear that." ∷ []) (call_found, refl) refl refl
      (call_found, refl) (omega arith)

-- The turn is run, comes again meanwhile, throws, and is run once more.
abbrev retries : List (ℕ × Event repository)
retries =
    (10, admits asks stored_call)
    ∷ (11, admits asks stored_call)
    ∷ (12, settles (turn_key asks) (threw "timeout"))
    ∷ (13, admits asks stored_call)
    ∷ []

times_started_most_example :
    times_started repository (turn_key asks) retries []
    ≤ 1 + times_failed repository (turn_key asks) retries
times_started_most_example = times_started_most repository (turn_key asks) 10 retries [] (
  (omega arith, omega arith),
  ((omega arith, omega arith), ((omega arith, omega arith), ((omega arith, omega arith), tt))),
)
