-- ===== src/Examples/CallSession.antt =====
-- A call in which the caller pauses in the middle of a sentence, is answered, and talks over the answer.
use ethixweb_ai_csr.Common.{
  split_tokens, ℕ, ◌+◌, ◌≡◌, refl, true, false, not, ◌&&◌, List, [], ◌∷◌, ◌++◌, none, some, String,
  codes, is_some, if◌then◌else◌, starts_with, without_space, concat, has_words, trim_end,
  trim_start, map, codes_eq,
}
use ethixweb_ai_csr.Conversation.Records.{Text}
use ethixweb_ai_csr.CallSession.{
  weak, strong, finished, FinalTranscript, Detectors, Session, handle_barge_in, is_audible,
  speak_chunk, stop_speaking, record_sent_audio, handle_speech_started,
}
use ethixweb_ai_csr.CallSession.Backchannel.{lower_code, is_pure_backchannel, normalize_token}
use ethixweb_ai_csr.CallSession.FragmentDetector.{fragment_strength, normalize_word}
use ethixweb_ai_csr.CallSession.SpokenDigits.{
  is_partial_number_utterance, is_partial_number, spoken_digits_only,
}
use ethixweb_ai_csr.CallSession.Floor.{Yields, interruptions, handle_barge_in_lem}
use ethixweb_ai_csr.CallSession.Fragments.{
  Event, receives, hears_onset, hears_words, fires_fragment_timer, settles, replays,
  replay_if_nothing_follows, says, sends_audio, stops, run, fire_fragment_timer,
  handle_final_transcript_candidate, arm_fragment_hold, handle_interim_speech,
  extend_hold_while_speaking, join_fragments,
}
use ethixweb_ai_csr.CallSession.Fragments.Hearing.{words_of, received}
use ethixweb_ai_csr.CallSession.Fragments.Words.{words_of-run}
use ethixweb_ai_csr.CallSession.Fragments.Timers.{IsHeld}
use ethixweb_ai_csr.CallSession.Fragments.Holds.{run-IsHeld}

abbrev detectors : Detectors
detectors = record {
  fragment_strength = fragment_strength;
  is_partial_number_utterance = is_partial_number_utterance;
  address_still_coming = λ said spoken. false;
  has_address_words = λ said. false;
  asks_not_to_be_interrupted = λ said. starts_with said (codes "let me finish");
  opens_question = λ said. starts_with said (codes "what");
  is_pure_backchannel = is_pure_backchannel;
}

abbrev session : Session
session = record {
  conversation_id = some "1";
  ended = false;
  active_turn_abort = false;
  tts_abort = false;
  tts_playing = false;
  playback_ends_at = 0;
  last_spoken_text = [];
  last_final_transcript_at = none;
  final_transcript_count = 0;
  reply_audio_started_at = 0;
  talked_over_reply_starts = 0;
  mid_thought_aborts = 0;
  asked_for_patience = false;
  turn_latency = false;
  barged_in_during_current_turn = false;
  pending_barge_in_timer = none;
  last_caller_activity_at = 0;
  last_speech_started_at = 0;
  check_in_speaking = false;
  check_in_playback_until = 0;
  pending_fragment = none;
  fragment_coalesce_timer = none;
  fragment_hold = none;
  caller_turns_handled = 0;
  turns = [];
  replayed_turns = [];
  effects = [];
}

abbrev said : String → FinalTranscript
said words = record { transcript = codes words; confidence = 900 }

abbrev call : List (ℕ × Event)
call =
    (1000, receives (said "i was fixing my"))
    ∷ (2000, hears_onset)
    ∷ (2400, hears_words (codes "water"))
    ∷ (3000, receives (said "water heater"))
    ∷ (3900, says (codes "Is it leaking?"))
    ∷ (4000, sends_audio 16000)
    ∷ (4100, settles)
    ∷ (4200, stops true)
    ∷ (4500, receives (said "i was not done"))
    ∷ (7500, fires_fragment_timer)
    ∷ (7600, settles)
    ∷ (10100, replays (said "i was not done") 3 0)
    ∷ []

words_of-run_example :
    words_of (run detectors call session)
    ≡ words_of session ++ without_space (concat (received call))
words_of-run_example =
    words_of-run detectors call session
      (tt, (tt, (tt, (tt, (tt, (tt, (tt, (tt, (tt, (tt, (tt, (tt, tt))))))))))))
      (record { there = refl; running = refl })

run-IsHeld_example : IsHeld (run detectors call session)
run-IsHeld_example =
    run-IsHeld detectors call session (record { pending = refl; hold = refl; due = tt })

abbrev answering : Session
answering = record session { playback_ends_at = 50000; barged_in_during_current_turn = false }

handle_barge_in_lem_example :
    Yields 4500 (handle_barge_in 4500 answering)
    × ((text : Text)
        → speak_chunk text (handle_barge_in 4500 answering) ≡ handle_barge_in 4500 answering)
    × (interruptions (handle_barge_in 4500 answering).effects
        ≡ interruptions answering.effects
          + (if not answering.active_turn_abort
                && is_audible 4500 answering
                && is_some answering.conversation_id
              then 1
              else 0))
handle_barge_in_lem_example = handle_barge_in_lem 4500 answering

-- The sentence is one turn, and so is what is said over the answer.
call_turns :
    (run detectors call session).turns
    ≡ codes "i was fixing my water heater" ∷ codes "i was not done" ∷ []
unfolding run fire_fragment_timer handle_final_transcript_candidate starts_with arm_fragment_hold
    is_audible stop_speaking record_sent_audio speak_chunk handle_interim_speech has_words
    extend_hold_while_speaking handle_speech_started handle_barge_in join_fragments trim_end
    trim_start is_pure_backchannel split_tokens codes_eq normalize_token lower_code
    fragment_strength is_partial_number_utterance normalize_word is_partial_number
    spoken_digits_only replay_if_nothing_follows
call_turns = refl

-- The last of them was cut short, and is answered after all.
call_replayed : (run detectors call session).replayed_turns ≡ codes "i was not done" ∷ []
unfolding run fire_fragment_timer handle_final_transcript_candidate starts_with arm_fragment_hold
    is_audible stop_speaking record_sent_audio speak_chunk handle_interim_speech has_words
    extend_hold_while_speaking handle_speech_started handle_barge_in join_fragments trim_end
    trim_start is_pure_backchannel split_tokens codes_eq normalize_token lower_code
    fragment_strength is_partial_number_utterance normalize_word is_partial_number
    spoken_digits_only replay_if_nothing_follows
call_replayed = refl

is_pure_backchannel_test :
    map is_pure_backchannel
      (codes " Uh-huh,  yeah! " ∷ codes "Yes, but wait" ∷ codes "right - okay" ∷ codes " ..." ∷ [])
    ≡ true ∷ false ∷ true ∷ false ∷ []
unfolding is_pure_backchannel has_words trim_end trim_start split_tokens codes_eq normalize_token
is_pure_backchannel_test = refl

fragment_strength_test :
    map fragment_strength (
      codes "I was fixing my"
      ∷ codes "D for David."
      ∷ codes "it's c h r"
      ∷ codes "8 7 2 double two 1"
      ∷ codes "nine"
      ∷ codes "Can you"
      ∷ codes "you can get me on my cell for"
      ∷ codes "My drain is clogged."
      ∷ [])
    ≡ strong ∷ strong ∷ strong ∷ strong ∷ weak ∷ weak ∷ weak ∷ finished ∷ []
unfolding fragment_strength has_words trim_end trim_start split_tokens codes_eq normalize_token
    lower_code normalize_word is_partial_number spoken_digits_only
fragment_strength_test = refl

-- The word `constructor` is read as a repeater.
is_partial_number_utterance_test :
    map is_partial_number_utterance
      (codes "8 7 2 double two 1" ∷ codes "8 7 constructor 5 2" ∷ codes "8 7 builder 2" ∷ [])
    ≡ true ∷ true ∷ false ∷ []
unfolding is_partial_number_utterance has_words trim_end trim_start split_tokens codes_eq
    normalize_token is_partial_number spoken_digits_only lower_code
is_partial_number_utterance_test = refl
