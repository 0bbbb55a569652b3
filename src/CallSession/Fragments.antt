-- ===== src/CallSession/Fragments.antt =====
-- call-session-orchestrator.ts: how the words of the caller become turns.
pub mod Turned
pub mod Hearing
pub mod Timers
pub mod Words
pub mod Holds
use ethixweb_ai_csr.Common.{
  ℕ, suc, ◌+◌, ◌-◌, ◌<◌, max, min, Bool, true, false, not, ◌&&◌, ◌||◌, List, [], ◌∷◌, ◌++◌, Option,
  none, some, String, is_some, if◌then◌else◌, leb, ltb, is_space, has_words, trim_start, trim_end,
  or_default, drop, length, ◌/◌,
}
use ethixweb_ai_csr.Conversation.Records.{Text}
use ethixweb_ai_csr.CallSession.{
  FragmentStrength, strong, weak, finished, FinalTranscript, Detectors, Session, is_audible,
  handle_barge_in, handle_speech_started, record_sent_audio, speak_chunk, stop_speaking,
  on_call_end,
}

abbrev pub fragment_coalesce_window_ms : ℕ
fragment_coalesce_window_ms = 1200

abbrev pub strong_fragment_hold_ms : ℕ
strong_fragment_hold_ms = 3000

abbrev pub partial_number_hold_ms : ℕ
partial_number_hold_ms = 1500

abbrev pub speaking_hold_extension_ms : ℕ
speaking_hold_extension_ms = 1500

abbrev pub max_fragment_hold_ms : ℕ
max_fragment_hold_ms = 10000

abbrev pub patient_hold_ms : ℕ
patient_hold_ms = 2000

abbrev pub patient_question_hold_ms : ℕ
patient_question_hold_ms = 700

abbrev pub aborts_before_patience : ℕ
aborts_before_patience = 2

abbrev pub address_hold_number_only_ms : ℕ
address_hold_number_only_ms = 3500

abbrev pub address_hold_with_street_ms : ℕ
address_hold_with_street_ms = 2500

is_digit : ℕ → Bool
is_digit c = leb 48 c && leb c 57

ends_with_digit : Text → Bool
unfolding is_digit
ends_with_digit [] = false
ends_with_digit (c ∷ []) = is_digit c
ends_with_digit (c ∷ d ∷ cs) = ends_with_digit (d ∷ cs)

starts_with_digit : Text → Bool
unfolding is_digit
starts_with_digit [] = false
starts_with_digit (c ∷ cs) = is_digit c

unfoldable pub join_fragments : Text → Text → Text
unfolding ends_with_digit starts_with_digit
join_fragments pending next =
    let left = trim_end pending in
    let right = trim_start next in
    if ends_with_digit left && starts_with_digit right
    then left ++ right
    else trim_end (trim_start (left ++ (32 ∷ right)))

-- The words that begin from here on, by whether a word goes on.
words_from : Bool → Text → ℕ
words_from inside [] = 0
words_from inside (c ∷ cs) =
    let after_space = words_from false cs in
    let after_word = words_from true cs in
    if is_space c then after_space else if inside then after_word else suc after_word

word_count : Text → ℕ
unfolding words_from
word_count text = words_from false text

waits_longer : Session → Bool
waits_longer st =
    ltb 0 st.talked_over_reply_starts
    || st.asked_for_patience
    || leb aborts_before_patience st.mid_thought_aborts

pub joined : Option FinalTranscript → FinalTranscript → FinalTranscript
joined none next = next
joined (some pending) next = record {
  transcript = join_fragments pending.transcript next.transcript;
  confidence = min pending.confidence next.confidence;
}

unfoldable pub arm_fragment_hold : ℕ → ℕ → Session → Session
arm_fragment_hold hold_ms now st = record st {
  fragment_hold = some (or_default st.fragment_hold now);
  fragment_coalesce_timer = some (now + hold_ms);
}

pub extended : Option ℕ → Option ℕ → ℕ → Session → Session
unfolding arm_fragment_hold
extended (some since) (some due) now st =
    if ltb max_fragment_hold_ms (now - since)
    then st
    else arm_fragment_hold speaking_hold_extension_ms now st
extended none timer now st = st
extended (some since) none now st = st

unfoldable pub extend_hold_while_speaking : ℕ → Session → Session
unfolding extended
extend_hold_while_speaking now st = extended st.fragment_hold st.fragment_coalesce_timer now st

onset_settled : Session → Bool
onset_settled st =
    leb st.last_speech_started_at (or_default st.last_final_transcript_at st.last_speech_started_at)

pub begun : FinalTranscript → ℕ → Session → Session
unfolding onset_settled
begun result now st =
    let st' = handle_barge_in now (record st { turn_latency = true }) in
    record st' {
      pending_barge_in_timer = if onset_settled st' then none else st'.pending_barge_in_timer;
      caller_turns_handled = suc st'.caller_turns_handled;
      barged_in_during_current_turn = false;
      active_turn_abort = true;
      turns = st'.turns ++ result.transcript ∷ [];
    }

-- `handleFinalTranscript`, up to the request.
unfoldable pub start_turn : FinalTranscript → ℕ → Session → Session
unfolding begun
start_turn result now st =
    if is_some st.conversation_id && not st.ended then begun result now st else st

pub committed : Option FinalTranscript → ℕ → Session → Session
unfolding start_turn
committed none now st = st
committed (some result) now st = start_turn result now st

unfoldable pub commit_pending_fragment : ℕ → Session → Session
unfolding committed
commit_pending_fragment now st =
    committed st.pending_fragment now (record st { pending_fragment = none })

pub due_or_not : Option ℕ → ℕ → Session → Session
unfolding commit_pending_fragment
due_or_not none now st = st
due_or_not (some due) now st =
    if leb due now
    then commit_pending_fragment now
        (record st { fragment_coalesce_timer = none; fragment_hold = none })
    else st

-- The timer of the hold fires when it is due.
unfoldable pub fire_fragment_timer : ℕ → Session → Session
unfolding due_or_not
fire_fragment_timer now st = due_or_not st.fragment_coalesce_timer now st

abbrev pub cut_short_turn_replay_ms : ℕ
cut_short_turn_replay_ms = 2500

abbrev pub max_cut_short_replay_deferrals : ℕ
max_cut_short_replay_deferrals = 3

-- A turn that has been started again is counted apart from those on new words.
pub counted_apart : Session → Session → Session
counted_apart before after = record after {
  turns = before.turns;
  replayed_turns = before.replayed_turns ++ drop (length before.turns) after.turns;
}

-- `replayIfNothingFollows`, where its timer fires; one that is put off again is a later event.
unfoldable pub replay_if_nothing_follows : FinalTranscript → ℕ → ℕ → ℕ → Session → Session
unfolding counted_apart
replay_if_nothing_follows result finals_at_start deferrals now st =
    if st.ended
      || ltb finals_at_start st.final_transcript_count
      || st.active_turn_abort
      || is_some st.pending_fragment
      || is_audible now st
    then st
    else if ltb (now - st.last_caller_activity_at) (cut_short_turn_replay_ms / 2)
        && ltb deferrals max_cut_short_replay_deferrals
    then st
    else counted_apart st (start_turn result now st)

-- What happens to a session. The timer of `replays` is that of a turn which has been cut short, with its
-- words, the count of the transcripts at its start, and how often it has been put off. A turn settles when its request has been answered or has failed.
pub data Event : Type 0 where
  receives : FinalTranscript → Event
  hears_onset fires_fragment_timer fires_barge_in_timer settles : Event
  hears_words says : Text → Event
  sends_audio : ℕ → Event
  stops : Bool → Event
  ends : String → Event
  replays : FinalTranscript → ℕ → ℕ → Event

module _ (d : Detectors) where
  address_hold_ms : Text → ℕ
  address_hold_ms said =
      if d.has_address_words said then address_hold_with_street_ms else address_hold_number_only_ms

  fragment_hold_ms : FragmentStrength → Text → ℕ
  fragment_hold_ms strong text =
      if d.is_partial_number_utterance text then partial_number_hold_ms else strong_fragment_hold_ms
  fragment_hold_ms weak text = fragment_coalesce_window_ms
  fragment_hold_ms finished text = 0

  -- An utterance that sounds finished: it is committed at once, but for a caller who needs patience.
  hold_or_commit : Text → ℕ → Session → Session
  unfolding waits_longer word_count
  hold_or_commit said now st =
      let st' = record st {
        asked_for_patience =
            if d.asks_not_to_be_interrupted said then true else st.asked_for_patience;
      } in
      if waits_longer st' && ltb 2 (word_count said)
      then arm_fragment_hold
          (if d.opens_question said then patient_question_hold_ms else patient_hold_ms) now st'
      else commit_pending_fragment now (record st' { fragment_hold = none })

  place : FragmentStrength → Bool → Text → Text → ℕ → Session → Session
  unfolding hold_or_commit fragment_hold_ms address_hold_ms
  place finished false text said now st = hold_or_commit said now st
  place finished true text said now st = arm_fragment_hold (max 0 (address_hold_ms said)) now st
  place strength coming text said now st =
      arm_fragment_hold
        (max (fragment_hold_ms strength text) (if coming then address_hold_ms said else 0)) now st

  -- `handleFinalTranscriptCandidate`
  unfoldable pub handle_final_transcript_candidate : FinalTranscript → ℕ → Session → Session
  unfolding place joined
  handle_final_transcript_candidate result now st =
      let st₁ = record st {
        last_final_transcript_at = some now;
        final_transcript_count = suc st.final_transcript_count;
      } in
      let st₂ =
        if is_audible now st₁ || st₁.active_turn_abort then handle_barge_in now st₁ else st₁ in
      let pending = joined st₂.pending_fragment result in
      place (d.fragment_strength result.transcript)
        (d.address_still_coming pending.transcript st₂.last_spoken_text) result.transcript
        pending.transcript now
        (record st₂ { pending_fragment = some pending; fragment_coalesce_timer = none })

  -- `handleInterimSpeech`
  unfoldable pub handle_interim_speech : Text → ℕ → Session → Session
  handle_interim_speech transcript now st =
      let st₁ = record st { last_caller_activity_at = now } in
      let st₂ = if has_words transcript then extend_hold_while_speaking now st₁ else st₁ in
      if not (is_some st₂.pending_barge_in_timer)
      then (if st₂.active_turn_abort
            && not (is_audible now st₂)
            && not (d.is_pure_backchannel transcript)
          then handle_barge_in now st₂
          else st₂)
      else if d.is_pure_backchannel transcript && (is_audible now st₂ || st₂.active_turn_abort)
      then st₂
      else handle_barge_in now (record st₂ { pending_barge_in_timer = none })

  unfoldable pub apply : ℕ × Event → Session → Session
  apply (now, receives result) st = handle_final_transcript_candidate result now st
  apply (now, hears_onset) st = handle_speech_started 2000 now st
  apply (now, fires_fragment_timer) st = fire_fragment_timer now st
  apply (now, fires_barge_in_timer) st = record st { pending_barge_in_timer = none }
  apply (now, settles) st = record st { active_turn_abort = false }
  apply (now, hears_words text) st = handle_interim_speech text now st
  apply (now, says text) st = speak_chunk text st
  apply (now, sends_audio bytes) st = record_sent_audio bytes now st
  apply (now, stops own) st = stop_speaking own st
  apply (now, ends end_reason) st = on_call_end end_reason st
  apply (now, replays result finals_at_start deferrals) st =
      replay_if_nothing_follows result finals_at_start deferrals now st

  unfoldable pub run : List (ℕ × Event) → Session → Session
  unfolding apply
  run [] st = st
  run (e ∷ es) st = run es (apply e st)
