-- ===== src/Conversation/Admission.antt =====
-- `admitTurn` and `execute` of application/handle-turn.use-case.ts of
-- apps/voice-orchestrator/src/modules/conversation, on the store of Kernel/Idempotency. What a turn itself
-- does is a parameter: a function of the conversation that has been read and of the state.
pub mod Starts
pub mod Replay
use Prim.Native.String.{◌++◌}
use ethixweb_ai_csr.Common.{
  ℕ, Bool, true, false, List, [], ◌∷◌, Option, none, some, String, is_some, if◌then◌else◌, length,
  ◌==◌,
}
use ethixweb_ai_csr.Kernel.Idempotency.{
  IdempotencyOutcome, proceed, pending, done, Store, begin_key, complete, release,
}
use ethixweb_ai_csr.Conversation.States.{ConversationState}
use ethixweb_ai_csr.Conversation.Records.{Text, UndeliveredTransfer, Conversation}
use ethixweb_ai_csr.Conversation.Repository.{Repository, find_by_id}

pub record HandleTurnCommand (J : Type 0) : Type 0 where
  pub tenant_id : String
  pub conversation_id : String
  pub idempotency_key : String
  pub transcript : Text
  pub stt_confidence : Option J
  pub offset_ms : Option ℕ
  pub allowed_tools : List String

pub record HumanTransfer : Type 0 where
  pub reason : String
  pub transfer_destination : Option String

-- The escalation has the fields of an undelivered transfer.
pub record HandleTurnResult : Type 0 where
  pub conversation_id : String
  pub response_text : Text
  pub tool_calls_executed : List String
  pub interrupted : Bool
  pub state : ConversationState
  pub escalation : Option UndeliveredTransfer
  pub human_transfer : Option HumanTransfer
  pub request_saved : Bool

-- `TurnAdmission`, or what `admitTurn` throws. A live one has the conversation and the key.
pub data TurnAdmission (J : Type 0) : Type 0 where
  cached : HandleTurnResult → TurnAdmission J
  live : Conversation J → String → TurnAdmission J
  conversation_not_found conversation_already_ended turn_already_in_flight :
      String → TurnAdmission J

-- How a turn ends: with a result, or with an error that it throws.
pub data TurnOutcome : Type 0 where
  returned : HandleTurnResult → TurnOutcome
  threw : String → TurnOutcome

-- What `execute` returns or throws.
pub data TurnAnswer (J : Type 0) : Type 0 where
  ran : TurnOutcome → TurnAnswer J
  rejected : TurnAdmission J → TurnAnswer J

abbrev pub turn_ttl_seconds : Option ℕ
turn_ttl_seconds = some 3600

unfoldable pub turn_key : {J : Type 0} → HandleTurnCommand J → String
turn_key c = "turn:" ++ (c.conversation_id ++ (":" ++ c.idempotency_key))

-- The end of `run`: a result is recorded, and an error releases the key.
unfoldable pub settle_turn :
    String → TurnOutcome → ℕ → Store HandleTurnResult → Store HandleTurnResult
settle_turn key (returned r) now store = complete key r turn_ttl_seconds now store
settle_turn key (threw error) now store = release key store

module _ {J : Type 0} where
  -- By the outcome of `begin`.
  admission : Conversation J → String → IdempotencyOutcome HandleTurnResult → TurnAdmission J
  admission conversation key (done r) = cached r
  admission conversation key pending = turn_already_in_flight key
  admission conversation key proceed = live conversation key

module _ {J : Type 0} (repository : Repository J) where
  open repository use {State}

  admit_found :
      HandleTurnCommand J
      → ℕ
      → Option (Conversation J)
      → Store HandleTurnResult
      → Store HandleTurnResult × TurnAdmission J
  unfolding admission
  admit_found c now none store = (store, conversation_not_found c.conversation_id)
  admit_found c now (some conversation) store =
      let (store', outcome) = begin_key (turn_key c) turn_ttl_seconds now store in
      if is_some conversation.ended_at
      then (store, conversation_already_ended c.conversation_id)
      else (store', admission conversation (turn_key c) outcome)

  -- `admitTurn`
  unfoldable pub admit_turn :
      HandleTurnCommand J
      → ℕ
      → State
      → Store HandleTurnResult
      → Store HandleTurnResult × TurnAdmission J
  unfolding admit_found
  admit_turn c now s store =
      admit_found c now (find_by_id repository c.tenant_id c.conversation_id s) store

  -- A replay is spoken as one chunk, if there is anything to speak.
  replayed : Text → List Text
  replayed text = if length text == 0 then [] else text ∷ []

  module _
      (run_turn : HandleTurnCommand J
        → Conversation J
        → State
        → State × TurnOutcome × List Text) where
    -- `execute` behind the admission; the last component is what is given to `onChunk`.
    run_admitted :
        HandleTurnCommand J
        → ℕ
        → State
        → Store HandleTurnResult × TurnAdmission J
        → State × Store HandleTurnResult × TurnAnswer J × List Text
    unfolding replayed settle_turn
    run_admitted c now s (store, cached r) = (s, store, ran (returned r), replayed r.response_text)
    run_admitted c now s (store, live conversation key) =
        let (s', outcome, chunks) = run_turn c conversation s in
        (s', settle_turn key outcome now store, ran outcome, chunks)
    run_admitted c now s (store, rejection) = (s, store, rejected rejection, [])

    -- `execute`, with the time at its start and at its end.
    unfoldable pub handle_turn :
        HandleTurnCommand J
        → ℕ
        → ℕ
        → State
        → Store HandleTurnResult
        → State × Store HandleTurnResult × TurnAnswer J × List Text
    unfolding run_admitted
    handle_turn c started finished s store =
        run_admitted c finished s (admit_turn c started s store)
