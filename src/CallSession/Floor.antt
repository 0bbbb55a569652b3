-- ===== src/CallSession/Floor.antt =====
-- call-session-orchestrator.ts: the caller takes the floor.
use ethixweb_ai_csr.Common.{
  ℕ, suc, ◌∙◌, ◌+◌, ◌-◌, ◌≡◌, refl, Bool, true, false, not, ◌&&◌, List, [], ◌∷◌, ◌++◌, Option, none,
  some, String, arith, is_some, if◌then◌else◌, ltb, String,
}
use ethixweb_ai_csr.Conversation.Records.{Text}
use ethixweb_ai_csr.CallSession.{
  Session, Effect, clears_queued_audio, aborts_turn, aborts_tts, interrupts, ends_conversation,
  until_playback_ends, is_audible, stop_audible_audio, abort_tts, interrupt, abort_turn,
  interrupt_reply, handle_barge_in, speak_chunk,
}

-- What the words of the caller depend on is left alone.
pub record SameWords (st st' : Session) : Type 0 where
  pub conversation_id : st'.conversation_id ≡ st.conversation_id
  pub ended : st'.ended ≡ st.ended
  pub last_final : st'.last_final_transcript_at ≡ st.last_final_transcript_at
  pub pending : st'.pending_fragment ≡ st.pending_fragment
  pub timer : st'.fragment_coalesce_timer ≡ st.fragment_coalesce_timer
  pub hold : st'.fragment_hold ≡ st.fragment_hold
  pub turns : st'.turns ≡ st.turns

pub SameWords-refl : (st : Session) → SameWords st st
SameWords-refl st = record {
  conversation_id = refl;
  ended = refl;
  last_final = refl;
  pending = refl;
  timer = refl;
  hold = refl;
  turns = refl;
}

interrupt-SameWords : (id : Option String) (st : Session) → SameWords st (interrupt id st)
unfolding interrupt
interrupt-SameWords none st = SameWords-refl st
interrupt-SameWords (some id) st = record {
  conversation_id = refl;
  ended = refl;
  last_final = refl;
  pending = refl;
  timer = refl;
  hold = refl;
  turns = refl;
}

pub handle_barge_in-SameWords : (now : ℕ) (st : Session) → SameWords st (handle_barge_in now st)
unfolding handle_barge_in abort_turn interrupt_reply abort_tts stop_audible_audio interrupt
handle_barge_in-SameWords now st = record {
  conversation_id = ground arith;
  ended = ground arith;
  last_final = ground arith;
  pending = ground arith;
  timer = ground arith;
  hold = ground arith;
  turns = ground arith;
}

-- How often the orchestrator has been told of an interruption.
pub interruptions : List Effect → ℕ
interruptions [] = 0
interruptions (clears_queued_audio ∷ es) = interruptions es
interruptions (aborts_turn ∷ es) = interruptions es
interruptions (aborts_tts ∷ es) = interruptions es
interruptions (interrupts id ∷ es) = 1 + interruptions es
interruptions (ends_conversation id end_reason ∷ es) = interruptions es

interruptions-append :
    (es fs : List Effect) → interruptions (es ++ fs) ≡ interruptions es + interruptions fs
unfolding interruptions
interruptions-append [] fs = omega arith
interruptions-append (clears_queued_audio ∷ es) fs = interruptions-append es fs
interruptions-append (aborts_turn ∷ es) fs = interruptions-append es fs
interruptions-append (aborts_tts ∷ es) fs = interruptions-append es fs
interruptions-append (interrupts id ∷ es) fs = omega (arith, interruptions-append es fs)
interruptions-append (ends_conversation id end_reason ∷ es) fs = interruptions-append es fs

-- Nothing is heard, no turn is in flight, and nothing is being spoken.
pub record Yields (now : ℕ) (st : Session) : Type 0 where
  pub silent : is_audible now st ≡ false
  pub no_turn : st.active_turn_abort ≡ false
  pub no_speech : st.tts_abort ≡ false
  pub barged : st.barged_in_during_current_turn ≡ true

handle_barge_in-Yields : (now : ℕ) (st : Session) → Yields now (handle_barge_in now st)
unfolding handle_barge_in abort_turn interrupt_reply abort_tts stop_audible_audio interrupt
    is_audible until_playback_ends
handle_barge_in-Yields now st = record {
  silent = ground arith;
  no_turn = ground arith;
  no_speech = ground arith;
  barged = ground arith;
}

-- The effects with one that is no interruption at their end.
abort_tts-interruptions :
    (st : Session) → interruptions (abort_tts st).effects ≡ interruptions st.effects
unfolding abort_tts interruptions
abort_tts-interruptions st = ground (arith, interruptions-append st.effects (aborts_tts ∷ []))

stop_audible_audio-interruptions :
    (st : Session) → interruptions (stop_audible_audio st).effects ≡ interruptions st.effects
unfolding stop_audible_audio interruptions
stop_audible_audio-interruptions st =
    omega (arith, interruptions-append st.effects (clears_queued_audio ∷ []))

interrupt-interruptions :
    (id : Option String) (st : Session)
    → interruptions (interrupt id st).effects
      ≡ interruptions st.effects + (if is_some id then 1 else 0)
unfolding interrupt interruptions
interrupt-interruptions none st = omega arith
interrupt-interruptions (some id) st =
    omega (arith, interruptions-append st.effects (interrupts id ∷ []))

stopped_if :
    (audible : Bool) (st : Session)
    → interruptions (if audible then stop_audible_audio st else st).effects
      ≡ interruptions st.effects
stopped_if true st = stop_audible_audio-interruptions st
stopped_if false st = refl

abort_turn-interruptions :
    (now : ℕ) (st : Session) → interruptions (abort_turn now st).effects ≡ interruptions st.effects
unfolding abort_turn interruptions
abort_turn-interruptions now st =
    let aborted = record st {
      mid_thought_aborts = suc st.mid_thought_aborts;
      active_turn_abort = false;
      effects = st.effects ++ aborts_turn ∷ [];
    } in
    stopped_if (is_audible now (abort_tts aborted)) (abort_tts aborted)
    ∙ abort_tts-interruptions aborted
    ∙ omega (arith, interruptions-append st.effects (aborts_turn ∷ []))

abort_tts-is_audible : (now : ℕ) (st : Session) → is_audible now (abort_tts st) ≡ is_audible now st
unfolding abort_tts is_audible until_playback_ends
abort_tts-is_audible now st = ground arith

abort_tts-conversation_id : (st : Session) → (abort_tts st).conversation_id ≡ st.conversation_id
unfolding abort_tts
abort_tts-conversation_id st = ground arith

interrupted_if :
    (audible : Bool) (st st' : Session)
    → interruptions st'.effects ≡ interruptions st.effects
    → interruptions
        (if audible then interrupt st'.conversation_id (stop_audible_audio st') else st).effects
      ≡ interruptions st.effects + (if audible && is_some st'.conversation_id then 1 else 0)
interrupted_if true st st' e =
    interrupt-interruptions st'.conversation_id (stop_audible_audio st')
    ∙ omega (arith, stop_audible_audio-interruptions st', e)
interrupted_if false st st' e = omega arith

interrupt_reply-interruptions :
    (now : ℕ) (st : Session)
    → interruptions (interrupt_reply now st).effects
      ≡ interruptions st.effects
        + (if is_audible now st && is_some st.conversation_id then 1 else 0)
unfolding interrupt_reply
interrupt_reply-interruptions now st =
    let st' = abort_tts st in
    let early = ltb (now - st'.reply_audio_started_at) 2500 in
    let st'' = record st' {
      talked_over_reply_starts =
          if early then suc st'.talked_over_reply_starts else st'.talked_over_reply_starts;
    } in
    interrupted_if (is_audible now st') st' st'' refl
    ∙ rw (abort_tts-is_audible now st, abort_tts-conversation_id st, abort_tts-interruptions st)
        refl

barged-speak_chunk :
    (text : Text) (st : Session)
    → st.barged_in_during_current_turn ≡ true
    → speak_chunk text st ≡ st
unfolding speak_chunk
barged-speak_chunk text st barged = rw barged refl

barged_by :
    (turn : Bool) (now : ℕ) (st : Session)
    → interruptions (if turn then abort_turn now st else interrupt_reply now st).effects
      ≡ interruptions st.effects
        + (if not turn && is_audible now st && is_some st.conversation_id then 1 else 0)
barged_by true now st = abort_turn-interruptions now st ∙ omega arith
barged_by false now st = interrupt_reply-interruptions now st

handle_barge_in-interruptions :
    (now : ℕ) (st : Session)
    → interruptions (handle_barge_in now st).effects
      ≡ interruptions st.effects
        + (if not st.active_turn_abort && is_audible now st && is_some st.conversation_id
            then 1
            else 0)
unfolding handle_barge_in is_audible until_playback_ends
handle_barge_in-interruptions now st =
    barged_by st.active_turn_abort now (record st { barged_in_during_current_turn = true })

-- Right after a barge-in nothing can be heard, no turn is in flight and nothing is being spoken, and a
-- queued chunk that comes directly after it is not spoken. That holds of the state that the barge-in
-- leaves: the start of the next turn resets the flag on which it rests, and of a chunk that comes behind
-- that nothing is said here. The orchestrator is told of an interruption exactly once where a complete
-- reply could still be heard, and never where a turn was in flight.
pub handle_barge_in_lem :
    (now : ℕ) (st : Session)
    → let st' = handle_barge_in now st in
      Yields now st'
      × ((text : Text) → speak_chunk text st' ≡ st')
      × (interruptions st'.effects
          ≡ interruptions st.effects
            + (if not st.active_turn_abort && is_audible now st && is_some st.conversation_id
                then 1
                else 0))
handle_barge_in_lem now st =
    let yields = handle_barge_in-Yields now st in
    (
      yields,
      (λ text. barged-speak_chunk text (handle_barge_in now st) yields.barged),
      handle_barge_in-interruptions now st,
    )
