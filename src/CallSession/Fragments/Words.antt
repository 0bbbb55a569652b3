-- ===== src/CallSession/Fragments/Words.antt =====
-- call-session-orchestrator.ts: the words of the caller, through the events of a call.
use mathlib.Core.List.{append_assoc, append-nil}
use ethixweb_ai_csr.Common.{
  ℕ, suc, ◌-◌, ◌∙◌, ◌≡◌, refl, sym, ap, Bool, true, false, Bool-cases, inl, inr, List, [], ◌∷◌,
  ◌++◌, Option, none, some, arith, is_some, if◌then◌else◌, has_words, All, without_space, concat,
  without_space-append, ◌&&◌, ◌||◌, leb, ltb, not,
}
use ethixweb_ai_csr.Conversation.Records.{Text}
use ethixweb_ai_csr.CallSession.{
  FragmentStrength, strong, weak, finished, FinalTranscript, Detectors, Session, handle_barge_in,
  handle_speech_started, record_sent_audio, speak, speak_chunk, stop_speaking, stop_audible_audio,
  is_audible,
}
use ethixweb_ai_csr.CallSession.Floor.{SameWords-refl}
use ethixweb_ai_csr.CallSession.Fragments.Turned.{Goes, replay_if_nothing_follows-SameWords}
use ethixweb_ai_csr.CallSession.Fragments.{
  Event, receives, hears_onset, fires_fragment_timer, fires_barge_in_timer, settles, replays,
  replay_if_nothing_follows, hears_words, says, sends_audio, stops, ends, apply, run, joined,
  commit_pending_fragment, due_or_not, fire_fragment_timer, arm_fragment_hold, extended,
  extend_hold_while_speaking, hold_or_commit, place, handle_final_transcript_candidate,
  handle_interim_speech, max_fragment_hold_ms, speaking_hold_extension_ms, waits_longer, word_count,
  patient_question_hold_ms, patient_hold_ms,
}
use ethixweb_ai_csr.CallSession.Fragments.Hearing.{
  words_of, Hears, SameWords-Hears, Hears-then, commit_pending_fragment-Hears, Hears-same,
  Hears-after, barged-Hears, taken-Hears, heard_in, received, IsBeforeEnd,
}

module _ (d : Detectors) where
  hold_or_commit-Hears :
      (said : Text) (now : ℕ) (st : Session) → Goes st → Hears st (hold_or_commit d said now st) []
  unfolding hold_or_commit arm_fragment_hold
  hold_or_commit-Hears said now st g =
      let st' = record st {
        asked_for_patience =
            if d.asks_not_to_be_interrupted said then true else st.asked_for_patience;
      } in
      let bare = record st' { fragment_hold = none } in
      split (waits_longer st' && ltb 2 (word_count said)) st'
        (if d.opens_question said then patient_question_hold_ms else patient_hold_ms)
        (Hears-same st st' g refl refl refl refl)
    where
      split :
          (waits : Bool) (st' : Session) (hold_ms : ℕ)
          → Hears st st' []
          → Hears st
              (if waits
                then arm_fragment_hold hold_ms now st'
                else commit_pending_fragment now (record st' { fragment_hold = none }))
              []
      split true st' hold_ms h =
          Hears-then st st' (arm_fragment_hold hold_ms now st') [] h
            (Hears-same st' (arm_fragment_hold hold_ms now st') h.goes refl refl refl refl)
      split false st' hold_ms h =
          let bare = record st' { fragment_hold = none } in
          let h' = Hears-then st st' bare [] h (Hears-same st' bare h.goes refl refl refl refl) in
          Hears-then st bare (commit_pending_fragment now bare) [] h'
            (commit_pending_fragment-Hears now bare h'.goes)

  armed-Hears :
      (hold_ms now : ℕ) (st : Session) → Goes st → Hears st (arm_fragment_hold hold_ms now st) []
  unfolding arm_fragment_hold
  armed-Hears hold_ms now st g =
      Hears-same st (arm_fragment_hold hold_ms now st) g refl refl refl refl

  place-Hears :
      (strength : FragmentStrength) (coming : Bool) (text said : Text) (now : ℕ) (st : Session)
      → Goes st
      → Hears st (place d strength coming text said now st) []
  unfolding place
  place-Hears finished false text said now st g = hold_or_commit-Hears said now st g
  place-Hears finished true text said now st g = armed-Hears _ now st g
  place-Hears strong coming text said now st g = armed-Hears _ now st g
  place-Hears weak coming text said now st g = armed-Hears _ now st g

  handle_final_transcript_candidate-Hears :
      (result : FinalTranscript) (now : ℕ) (st : Session)
      → Goes st
      → Hears st
          (handle_final_transcript_candidate d result now st)
          (without_space result.transcript)
  unfolding handle_final_transcript_candidate
  handle_final_transcript_candidate-Hears result now st g =
      let st₁ = record st {
        last_final_transcript_at = some now;
        final_transcript_count = suc st.final_transcript_count;
      } in
      let h₁ = Hears-same st st₁ g refl refl refl refl in
      let barges = is_audible now st₁ || st₁.active_turn_abort in
      let st₂ = if barges then handle_barge_in now st₁ else st₁ in
      let h₂ = Hears-then st st₁ st₂ [] h₁ (barged-Hears barges now st₁ h₁.goes) in
      let pending = joined st₂.pending_fragment result in
      let st₃ = record st₂ { pending_fragment = some pending; fragment_coalesce_timer = none } in
      let h₃ =
        Hears-after st st₂ st₃ (without_space result.transcript) h₂
          (taken-Hears result st₂ h₂.goes) in
      Hears-then st st₃ (handle_final_transcript_candidate d result now st)
        (without_space result.transcript) h₃
        (place-Hears (d.fragment_strength result.transcript)
          (d.address_still_coming pending.transcript st₂.last_spoken_text) result.transcript
          pending.transcript now st₃ h₃.goes)

  extend_hold_while_speaking-Hears :
      (now : ℕ) (st : Session) → Goes st → Hears st (extend_hold_while_speaking now st) []
  unfolding extend_hold_while_speaking extended
  extend_hold_while_speaking-Hears now st g = by_hold st.fragment_hold st.fragment_coalesce_timer
    where
      by_hold : (hold timer : Option ℕ) → Hears st (extended hold timer now st) []
      by_hold none timer = SameWords-Hears st st (SameWords-refl st) g
      by_hold (some since) none = SameWords-Hears st st (SameWords-refl st) g
      by_hold (some since) (some due) = elim (Bool-cases (ltb max_fragment_hold_ms (now - since))) [
        | inl long ↦ rw long (SameWords-Hears st st (SameWords-refl st) g)
        | inr short ↦ rw short (armed-Hears speaking_hold_extension_ms now st g)
      ]

  handle_interim_speech-Hears :
      (transcript : Text) (now : ℕ) (st : Session)
      → Goes st
      → Hears st (handle_interim_speech d transcript now st) []
  unfolding handle_interim_speech
  handle_interim_speech-Hears transcript now st g =
      let st₁ = record st { last_caller_activity_at = now } in
      let h₁ = Hears-same st st₁ g refl refl refl refl in
      let st₂ = if has_words transcript then extend_hold_while_speaking now st₁ else st₁ in
      let h₂ = extends (has_words transcript) st₁ h₁ in
      confirm (not (is_some st₂.pending_barge_in_timer))
        (d.is_pure_backchannel transcript && (is_audible now st₂ || st₂.active_turn_abort))
        (st₂.active_turn_abort
          && not (is_audible now st₂)
          && not (d.is_pure_backchannel transcript))
        st₂ h₂
    where
      extends :
          (words : Bool) (st₁ : Session)
          → Hears st st₁ []
          → Hears st (if words then extend_hold_while_speaking now st₁ else st₁) []
      extends true st₁ h =
          Hears-then st st₁ (extend_hold_while_speaking now st₁) [] h
            (extend_hold_while_speaking-Hears now st₁ h.goes)
      extends false st₁ h = h

      confirm :
          (unconfirmed backchannel kept_talking : Bool) (st₂ : Session)
          → Hears st st₂ []
          → Hears st
              (if unconfirmed
                then (if kept_talking then handle_barge_in now st₂ else st₂)
                else if backchannel
                then st₂
                else handle_barge_in now (record st₂ { pending_barge_in_timer = none }))
              []
      confirm true backchannel kept_talking st₂ h =
          Hears-then st st₂ (if kept_talking then handle_barge_in now st₂ else st₂) [] h
            (barged-Hears kept_talking now st₂ h.goes)
      confirm false true kept_talking st₂ h = h
      confirm false false kept_talking st₂ h =
          let st₃ = record st₂ { pending_barge_in_timer = none } in
          let h₃ = Hears-then st st₂ st₃ [] h (Hears-same st₂ st₃ h.goes refl refl refl refl) in
          Hears-then st st₃ (handle_barge_in now st₃) [] h₃ (barged-Hears true now st₃ h₃.goes)

  fire_fragment_timer-Hears :
      (now : ℕ) (st : Session) → Goes st → Hears st (fire_fragment_timer now st) []
  unfolding fire_fragment_timer due_or_not
  fire_fragment_timer-Hears now st g = by_timer st.fragment_coalesce_timer
    where
      by_timer : (timer : Option ℕ) → Hears st (due_or_not timer now st) []
      by_timer none = SameWords-Hears st st (SameWords-refl st) g
      by_timer (some due) =
          let bare = record st { fragment_coalesce_timer = none; fragment_hold = none } in
          let h = Hears-same st bare g refl refl refl refl in
          elim (Bool-cases (leb due now)) [
            | inl fires ↦ rw fires (
                Hears-then st bare (commit_pending_fragment now bare) [] h
                  (commit_pending_fragment-Hears now bare h.goes))
            | inr waits ↦ rw waits (SameWords-Hears st st (SameWords-refl st) g)
          ]

  handle_speech_started-Hears :
      (confirmation_timeout_ms now : ℕ) (st : Session)
      → Goes st
      → Hears st (handle_speech_started confirmation_timeout_ms now st) []
  unfolding handle_speech_started stop_audible_audio
  handle_speech_started-Hears confirmation_timeout_ms now st g =
      Hears-same st (handle_speech_started confirmation_timeout_ms now st) g (ground arith)
        (ground arith) (ground arith) (ground arith)

  apply-Hears :
      (now : ℕ) (e : Event) (st : Session)
      → IsBeforeEnd (now, e)
      → Goes st
      → Hears st (apply d (now, e) st) (without_space (heard_in e))
  unfolding apply record_sent_audio speak_chunk speak stop_speaking
  apply-Hears now (receives result) st b g = handle_final_transcript_candidate-Hears result now st g
  apply-Hears now hears_onset st b g = handle_speech_started-Hears 2000 now st g
  apply-Hears now fires_fragment_timer st b g = fire_fragment_timer-Hears now st g
  apply-Hears now fires_barge_in_timer st b g =
      Hears-same st (record st { pending_barge_in_timer = none }) g refl refl refl refl
  apply-Hears now settles st b g =
      Hears-same st (record st { active_turn_abort = false }) g refl refl refl refl
  apply-Hears now (hears_words text) st b g = handle_interim_speech-Hears text now st g
  apply-Hears now (says text) st b g =
      Hears-same st (speak_chunk text st) g (ground arith) (ground arith) (ground arith)
        (ground arith)
  apply-Hears now (sends_audio bytes) st b g =
      Hears-same st (record_sent_audio bytes now st) g refl refl refl refl
  apply-Hears now (stops own) st b g = Hears-same st (stop_speaking own st) g refl refl refl refl
  apply-Hears now (ends end_reason) st b g = absurd b
  apply-Hears now (replays result finals_at_start deferrals) st b g =
      SameWords-Hears st (replay_if_nothing_follows result finals_at_start deferrals now st)
        (replay_if_nothing_follows-SameWords result finals_at_start deferrals now st) g

  -- No word of the caller is lost on its way into a turn. Whatever happens in a session whose conversation
  -- has been started, in whatever order, up to the end of the call: the words of the turns that are
  -- started on new words, with those that are still held, are the words of the finalized transcripts, each
  -- once and in their order; white space aside. A turn that is started again on the words of one that has
  -- been cut short is counted apart, and not among those.
  pub words_of-run :
      (es : List (ℕ × Event)) (st : Session)
      → All IsBeforeEnd es
      → Goes st
      → words_of (run d es st) ≡ words_of st ++ without_space (concat (received es))
  unfolding run
  words_of-run [] st b g = sym (append-nil (words_of st))
  words_of-run ((now, e) ∷ es) st b g =
      let h = apply-Hears now e st b.0 g in
      words_of-run es (apply d (now, e) st) b.1 h.goes
      ∙ ap (λ t. t ++ without_space (concat (received es))) h.words
      ∙ append_assoc (words_of st) (without_space (heard_in e))
          (without_space (concat (received es)))
      ∙ ap (λ t. words_of st ++ t) (sym (without_space-append (heard_in e) (concat (received es))))
