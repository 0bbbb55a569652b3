-- ===== src/CallSession/Fragments/Holds.antt =====
-- call-session-orchestrator.ts: the hold of a fragment, through the events of a call.
use ethixweb_ai_csr.Common.{
  ℕ, suc, ◌≡◌, refl, Bool, true, false, List, [], ◌∷◌, none, some, arith, is_some, if◌then◌else◌,
  has_words, ◌&&◌, ◌||◌, ltb, not,
}
use ethixweb_ai_csr.Conversation.Records.{Text}
use ethixweb_ai_csr.CallSession.{
  FragmentStrength, strong, weak, finished, FinalTranscript, Detectors, Session, handle_barge_in,
  handle_speech_started, record_sent_audio, speak, speak_chunk, stop_speaking, stop_audible_audio,
  is_audible,
}
use ethixweb_ai_csr.CallSession.Floor.{handle_barge_in-SameWords}
use ethixweb_ai_csr.CallSession.Fragments.{
  Event, receives, hears_onset, fires_fragment_timer, fires_barge_in_timer, settles, replays,
  replay_if_nothing_follows, hears_words, says, sends_audio, stops, ends, apply, run, joined,
  commit_pending_fragment, fire_fragment_timer, arm_fragment_hold, extend_hold_while_speaking,
  hold_or_commit, place, handle_final_transcript_candidate, handle_interim_speech, waits_longer,
  word_count, patient_question_hold_ms, patient_hold_ms, fragment_hold_ms, address_hold_ms,
}
use ethixweb_ai_csr.CallSession.Fragments.Turned.{replay_if_nothing_follows-SameWords}
use ethixweb_ai_csr.CallSession.Fragments.Timers.{
  IsHeld, IsHeld-same, barged-IsHeld, commit_pending_fragment-IsHeld, arm_fragment_hold-IsHeld,
  extend_hold_while_speaking-IsHeld, due_or_not-IsHeld, on_call_end-IsHeld,
}

module _ (d : Detectors) where
  by_patience :
      (waits : Bool) (said : Text) (now : ℕ) (st : Session)
      → is_some st.pending_fragment ≡ true
      → st.fragment_coalesce_timer ≡ none
      → st.last_final_transcript_at ≡ some now
      → IsHeld (
          if waits
          then arm_fragment_hold
              (if d.opens_question said then patient_question_hold_ms else patient_hold_ms)
              now
              st
          else commit_pending_fragment now (record st { fragment_hold = none }))
  by_patience true said now st pending timer last =
      arm_fragment_hold-IsHeld _ now st (ground arith) pending last
  by_patience false said now st pending timer last =
      commit_pending_fragment-IsHeld now (record st { fragment_hold = none }) timer refl

  place-IsHeld :
      (strength : FragmentStrength) (coming : Bool) (text said : Text) (now : ℕ) (st : Session)
      → is_some st.pending_fragment ≡ true
      → st.fragment_coalesce_timer ≡ none
      → st.last_final_transcript_at ≡ some now
      → IsHeld (place d strength coming text said now st)
  unfolding place hold_or_commit fragment_hold_ms address_hold_ms
  place-IsHeld finished false text said now st pending timer last =
      let st' = record st {
        asked_for_patience =
            if d.asks_not_to_be_interrupted said then true else st.asked_for_patience;
      } in
      by_patience (waits_longer st' && ltb 2 (word_count said)) said now st' pending timer last
  place-IsHeld finished true text said now st pending timer last =
      arm_fragment_hold-IsHeld _ now st (ground arith) pending last
  place-IsHeld strong coming text said now st pending timer last =
      arm_fragment_hold-IsHeld _ now st (ground arith) pending last
  place-IsHeld weak coming text said now st pending timer last =
      arm_fragment_hold-IsHeld _ now st (ground arith) pending last

  handle_final_transcript_candidate-IsHeld :
      (result : FinalTranscript) (now : ℕ) (st : Session)
      → IsHeld (handle_final_transcript_candidate d result now st)
  unfolding handle_final_transcript_candidate
  handle_final_transcript_candidate-IsHeld result now st =
      let st₁ = record st {
        last_final_transcript_at = some now;
        final_transcript_count = suc st.final_transcript_count;
      } in
      let barges = is_audible now st₁ || st₁.active_turn_abort in
      let st₂ = if barges then handle_barge_in now st₁ else st₁ in
      let pending = joined st₂.pending_fragment result in
      place-IsHeld (d.fragment_strength result.transcript)
        (d.address_still_coming pending.transcript st₂.last_spoken_text) result.transcript
        pending.transcript now
        (record st₂ { pending_fragment = some pending; fragment_coalesce_timer = none }) refl refl
        (barged-last barges now st₁)
    where
      barged-last :
          (barges : Bool) (now : ℕ) (st₁ : Session)
          → (if barges then handle_barge_in now st₁ else st₁).last_final_transcript_at
            ≡ st₁.last_final_transcript_at
      barged-last true now st₁ = (handle_barge_in-SameWords now st₁).last_final
      barged-last false now st₁ = refl

  confirmed-IsHeld :
      (unconfirmed backchannel kept_talking : Bool) (now : ℕ) (st : Session)
      → IsHeld st
      → IsHeld (
          if unconfirmed
          then (if kept_talking then handle_barge_in now st else st)
          else if backchannel
          then st
          else handle_barge_in now (record st { pending_barge_in_timer = none }))
  confirmed-IsHeld true backchannel kept_talking now st h = barged-IsHeld kept_talking now st h
  confirmed-IsHeld false true kept_talking now st h = h
  confirmed-IsHeld false false kept_talking now st h =
      let st' = record st { pending_barge_in_timer = none } in
      barged-IsHeld true now st' (IsHeld-same st st' refl refl refl refl h)

  handle_interim_speech-IsHeld :
      (transcript : Text) (now : ℕ) (st : Session)
      → IsHeld st
      → IsHeld (handle_interim_speech d transcript now st)
  unfolding handle_interim_speech
  handle_interim_speech-IsHeld transcript now st h =
      let st₁ = record st { last_caller_activity_at = now } in
      let h₁ = IsHeld-same st st₁ refl refl refl refl h in
      let st₂ = if has_words transcript then extend_hold_while_speaking now st₁ else st₁ in
      confirmed-IsHeld (not (is_some st₂.pending_barge_in_timer))
        (d.is_pure_backchannel transcript && (is_audible now st₂ || st₂.active_turn_abort))
        (st₂.active_turn_abort
          && not (is_audible now st₂)
          && not (d.is_pure_backchannel transcript))
        now st₂ (extends (has_words transcript) st₁ h₁)
    where
      extends :
          (words : Bool) (st₁ : Session)
          → IsHeld st₁
          → IsHeld (if words then extend_hold_while_speaking now st₁ else st₁)
      extends true st₁ h = extend_hold_while_speaking-IsHeld now st₁ h
      extends false st₁ h = h

  apply-IsHeld : (now : ℕ) (e : Event) (st : Session) → IsHeld st → IsHeld (apply d (now, e) st)
  unfolding apply fire_fragment_timer record_sent_audio speak_chunk speak stop_speaking
      handle_speech_started stop_audible_audio
  apply-IsHeld now (receives result) st h = handle_final_transcript_candidate-IsHeld result now st
  apply-IsHeld now hears_onset st h =
      IsHeld-same st (handle_speech_started 2000 now st) (ground arith) (ground arith)
        (ground arith) (ground arith) h
  apply-IsHeld now fires_fragment_timer st h = due_or_not-IsHeld st.fragment_coalesce_timer now st h
  apply-IsHeld now fires_barge_in_timer st h =
      IsHeld-same st (record st { pending_barge_in_timer = none }) refl refl refl refl h
  apply-IsHeld now settles st h =
      IsHeld-same st (record st { active_turn_abort = false }) refl refl refl refl h
  apply-IsHeld now (hears_words text) st h = handle_interim_speech-IsHeld text now st h
  apply-IsHeld now (says text) st h =
      IsHeld-same st (speak_chunk text st) (ground arith) (ground arith) (ground arith)
        (ground arith) h
  apply-IsHeld now (sends_audio bytes) st h =
      IsHeld-same st (record_sent_audio bytes now st) refl refl refl refl h
  apply-IsHeld now (stops own) st h = IsHeld-same st (stop_speaking own st) refl refl refl refl h
  apply-IsHeld now (ends end_reason) st h = on_call_end-IsHeld end_reason st h
  apply-IsHeld now (replays result finals_at_start deferrals) st h =
      let same = replay_if_nothing_follows-SameWords result finals_at_start deferrals now st in
      IsHeld-same st (replay_if_nothing_follows result finals_at_start deferrals now st)
        same.pending same.timer same.hold same.last_final h

  -- Words are held exactly while the timer that commits them runs, through anything that happens in a
  -- session, its end included. The timer is due at most 3.5 seconds after the last finalized transcript,
  -- or at most 11.5 seconds after the hold began, by the later of the two.
  pub run-IsHeld : (es : List (ℕ × Event)) (st : Session) → IsHeld st → IsHeld (run d es st)
  unfolding run
  run-IsHeld [] st h = h
  run-IsHeld ((now, e) ∷ es) st h = run-IsHeld es (apply d (now, e) st) (apply-IsHeld now e st h)
