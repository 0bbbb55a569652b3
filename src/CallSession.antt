-- ===== src/CallSession.antt =====
-- apps/voice-runtime/src/modules/call-session/application/call-session-orchestrator.ts: what a call's
-- session does with what the caller says and with what the caller hears. A handler runs to its end at one
-- time; what it waits for is a later event. The silence check-ins with their timers and transfers are left
-- out. When the timer of a replay is armed, and that one utterance has one at most, is left to the events.
-- The handlers take any detectors; Backchannel, SpokenDigits and FragmentDetector model some of those that
-- the source has.
pub mod Fragments
pub mod Floor
pub mod Backchannel
pub mod SpokenDigits
pub mod FragmentDetector
use ethixweb_ai_csr.Common.{
  ℕ, suc, ◌+◌, ◌-◌, ◌*◌, ◌<◌, max, min, Bool, true, false, not, ◌&&◌, ◌||◌, List, [], ◌∷◌, ◌++◌,
  Option, none, some, String, is_some, if◌then◌else◌, leb, ltb,
}
use ethixweb_ai_csr.Conversation.Records.{Text}

pub data FragmentStrength : Type 0 where
  strong weak finished : FragmentStrength

-- A finalized transcript, with its confidence in thousandths.
pub record FinalTranscript : Type 0 where
  pub transcript : Text
  pub confidence : ℕ

-- What the detectors and the patterns say of a text.
pub record Detectors : Type 0 where
  pub fragment_strength : Text → FragmentStrength
  pub is_partial_number_utterance : Text → Bool
  pub address_still_coming : Text → Text → Bool
  pub has_address_words : Text → Bool
  pub asks_not_to_be_interrupted : Text → Bool
  pub opens_question : Text → Bool
  pub is_pure_backchannel : Text → Bool

pub data Effect : Type 0 where
  clears_queued_audio aborts_turn aborts_tts : Effect
  interrupts : String → Effect
  ends_conversation : String → String → Effect

-- The fields of the orchestrator. A controller that is set is `true`, a timer is the time at which it is
-- due, and `fragment_hold` is its `since`. `playback_ends_at` counts eighths of a millisecond, as 8 bytes
-- of audio are one. `turns` are the transcripts that turns have been started for, and `replayed_turns`
-- those for which a turn has been started again.
pub record Session : Type 0 where
  pub conversation_id : Option String
  pub ended : Bool
  pub active_turn_abort : Bool
  pub tts_abort : Bool
  pub tts_playing : Bool
  pub playback_ends_at : ℕ
  pub last_spoken_text : Text
  pub last_final_transcript_at : Option ℕ
  pub final_transcript_count : ℕ
  pub reply_audio_started_at : ℕ
  pub talked_over_reply_starts : ℕ
  pub mid_thought_aborts : ℕ
  pub asked_for_patience : Bool
  pub turn_latency : Bool
  pub barged_in_during_current_turn : Bool
  pub pending_barge_in_timer : Option ℕ
  pub last_caller_activity_at : ℕ
  pub last_speech_started_at : ℕ
  pub check_in_speaking : Bool
  pub check_in_playback_until : ℕ
  pub pending_fragment : Option FinalTranscript
  pub fragment_coalesce_timer : Option ℕ
  pub fragment_hold : Option ℕ
  pub caller_turns_handled : ℕ
  pub turns : List Text
  pub replayed_turns : List Text
  pub effects : List Effect

abbrev pub audible_tail_tolerance_ms : ℕ
audible_tail_tolerance_ms = 40

abbrev pub early_talk_over_ms : ℕ
early_talk_over_ms = 2500

-- In eighths of a millisecond.
unfoldable pub until_playback_ends : ℕ → Session → ℕ
until_playback_ends now st =
    let remaining = st.playback_ends_at - 8 * now in
    if ltb (8 * audible_tail_tolerance_ms) remaining then remaining else 0

unfoldable pub is_audible : ℕ → Session → Bool
unfolding until_playback_ends
is_audible now st = st.tts_playing || ltb 0 (until_playback_ends now st)

unfoldable pub stop_audible_audio : Session → Session
stop_audible_audio st = record st {
  tts_playing = false;
  playback_ends_at = 0;
  effects = st.effects ++ clears_queued_audio ∷ [];
}

unfoldable pub abort_tts : Session → Session
abort_tts st =
    if st.tts_abort
    then record st { tts_abort = false; effects = st.effects ++ aborts_tts ∷ [] }
    else st

interrupt : Option String → Session → Session
interrupt none st = st
interrupt (some id) st = record st { effects = st.effects ++ interrupts id ∷ [] }

-- Mechanism 1: the turn is still in flight.
abort_turn : ℕ → Session → Session
unfolding is_audible stop_audible_audio abort_tts
abort_turn now st =
    let st' = abort_tts (record st {
      mid_thought_aborts = suc st.mid_thought_aborts;
      active_turn_abort = false;
      effects = st.effects ++ aborts_turn ∷ [];
    }) in
    if is_audible now st' then stop_audible_audio st' else st'

-- Mechanism 2: a reply that is complete is still playing.
interrupt_reply : ℕ → Session → Session
unfolding is_audible stop_audible_audio abort_tts interrupt
interrupt_reply now st =
    let st' = abort_tts st in
    let early = ltb (now - st'.reply_audio_started_at) early_talk_over_ms in
    let st'' = record st' {
      talked_over_reply_starts =
          if early then suc st'.talked_over_reply_starts else st'.talked_over_reply_starts;
    } in
    if is_audible now st' then interrupt st''.conversation_id (stop_audible_audio st'') else st'

-- `handleBargeIn`
unfoldable pub handle_barge_in : ℕ → Session → Session
unfolding abort_turn interrupt_reply
handle_barge_in now st =
    let st' = record st { barged_in_during_current_turn = true } in
    if st'.active_turn_abort then abort_turn now st' else interrupt_reply now st'

-- `handleSpeechStarted`, with the time to confirm it in.
unfoldable pub handle_speech_started : ℕ → ℕ → Session → Session
unfolding is_audible stop_audible_audio
handle_speech_started confirmation_timeout_ms now st =
    let st' = record st { last_caller_activity_at = now; last_speech_started_at = now } in
    let st'' =
      if (st'.check_in_speaking || ltb now st'.check_in_playback_until) && is_audible now st'
      then stop_audible_audio st'
      else st' in
    record st'' { pending_barge_in_timer = some (now + confirmation_timeout_ms) }

-- `recordSentAudio`, by the length of the chunk.
unfoldable pub record_sent_audio : ℕ → ℕ → Session → Session
record_sent_audio bytes now st = record st {
  reply_audio_started_at = if st.turn_latency then now else st.reply_audio_started_at;
  turn_latency = false;
  playback_ends_at = max (8 * now) st.playback_ends_at + bytes;
}

-- `speak`, up to the first audio, for a text that leaves something to say.
unfoldable pub speak : Text → Session → Session
speak text st = record st { last_spoken_text = text; tts_abort = true; tts_playing = true }

-- A chunk of a turn whose place in the queue has come.
unfoldable pub speak_chunk : Text → Session → Session
unfolding speak
speak_chunk text st = if st.barged_in_during_current_turn then st else speak text st

-- The end of `speak`; whether its controller is still the one that is set.
unfoldable pub stop_speaking : Bool → Session → Session
stop_speaking own st = record st {
  tts_playing = false;
  tts_abort = if own then false else st.tts_abort;
}

ended_session : String → Option String → Session → Session
ended_session end_reason none st = st
ended_session end_reason (some id) st = record st {
  effects = st.effects ++ ends_conversation id end_reason ∷ [];
}

-- `onCallEnd`
unfoldable pub on_call_end : String → Session → Session
unfolding ended_session
on_call_end end_reason st =
    let aborted = if st.active_turn_abort then st.effects ++ aborts_turn ∷ [] else st.effects in
    let silenced = if st.tts_abort then aborted ++ aborts_tts ∷ [] else aborted in
    if st.ended
    then st
    else ended_session end_reason st.conversation_id (record st {
      ended = true;
      effects = silenced;
      pending_barge_in_timer = none;
      fragment_coalesce_timer = none;
      fragment_hold = none;
      pending_fragment = none;
    })
