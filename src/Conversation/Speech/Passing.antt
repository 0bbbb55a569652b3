-- ===== src/Conversation/Speech/Passing.antt =====
-- `streamOneCompletion` of handle-turn.use-case.ts: what its output guard is given, and what it lets
-- through.
use mathlib.Core.List.{append_assoc, append-nil}
use ethixweb_ai_csr.Common.{
  ℕ, ◌≡◌, refl, sym, ap, ◌∙◌, inl, inr, true, false, Bool-cases, List, [], ◌∷◌, ◌++◌, Option, none,
  some, arith, take, drop, length, ◌==◌, if◌then◌else◌, has_words, String, Bool, not, ◌&&◌, ◌⊎◌,
  false,
}
use ethixweb_ai_csr.Conversation.Records.{Text}
use ethixweb_ai_csr.Conversation.Segments.{find_speech_segment_boundary}
use ethixweb_ai_csr.Conversation.Speech.{
  text_delta, tool_call, done, error, Stream, finished, throws, yields, Guard, Streaming, emit,
  flushed_at, take_text, stream_loop, flush_rest, Completion, completed, provider_completion_error,
  completion_of,
}

-- The text that a stream brings up to where it ends, fails or is aborted.
unfoldable pub deltas : {J : Type 0} → Stream J → Text
deltas finished = []
deltas (throws message aborted) = []
deltas (yields true chunk rest) = []
deltas (yields false (text_delta delta) rest) = delta ++ deltas rest
deltas (yields false (tool_call call) rest) = deltas rest
deltas (yields false (done reason) rest) = []
deltas (yields false (error message retryable) rest) = []

-- What a guard lets through of segments, one after the other, but for what it leaves blank.
unfoldable pub passed : (guard : Guard) → guard.State → List Text → List Text
passed guard g [] = []
passed guard g (segment ∷ segments) =
    let (g', guarded) = guard.apply g segment in
    let rest = passed guard g' segments in if has_words guarded then guarded ∷ rest else rest

-- The state of the guard behind them.
unfoldable pub guarded_by : (guard : Guard) → guard.State → List Text → guard.State
guarded_by guard g [] = g
guarded_by guard g (segment ∷ segments) = guarded_by guard (guard.apply g segment).0 segments

guarded_by-snoc :
    (guard : Guard) (g : guard.State) (segments : List Text) (segment : Text)
    → guarded_by guard g (segments ++ segment ∷ [])
      ≡ (guard.apply (guarded_by guard g segments) segment).0
unfolding guarded_by
guarded_by-snoc guard g [] segment = refl
guarded_by-snoc guard g (s ∷ segments) segment =
    guarded_by-snoc guard (guard.apply g s).0 segments segment

passed-snoc :
    (guard : Guard) (g : guard.State) (segments : List Text) (segment : Text)
    → passed guard g (segments ++ segment ∷ []) ≡ (
        let guarded = (guard.apply (guarded_by guard g segments) segment).1 in
        if has_words guarded
        then passed guard g segments ++ guarded ∷ []
        else passed guard g segments)
unfolding passed guarded_by
passed-snoc guard g [] segment = ground arith
passed-snoc guard g (s ∷ segments) segment =
    let later = passed-snoc guard (guard.apply g s).0 segments segment in
    elim (Bool-cases (has_words (guard.apply g s).1)) [
      | inl spoken ↦ ground (arith, spoken, later)
      | inr blank ↦ ground (arith, blank, later)
    ]

empty_text : (delta : Text) → length delta == 0 ≡ true → delta ≡ []
empty_text [] h = refl
empty_text (c ∷ delta) h = ground (arith, h)

module _ {J : Type 0} (guard : Guard) where
  -- The guard has been at the segments handed to it, and what it has let through has been handed on.
  pub record IsPassed (g : guard.State) (st : Streaming J guard.State) : Type 0 where
    pub guard_state : st.guard ≡ guarded_by guard g st.segments
    pub spoken : st.spoken ≡ passed guard g st.segments

  emit-IsPassed :
      (g : guard.State) (segment : Text) (st : Streaming J guard.State)
      → IsPassed g st
      → IsPassed g (emit guard segment st)
  unfolding emit
  emit-IsPassed g segment st h = record {
    guard_state =
        ap (λ x. (guard.apply x segment).0) h.guard_state
        ∙ sym (guarded_by-snoc guard g st.segments segment);
    spoken = rw (h.guard_state, h.spoken) refl ∙ sym (passed-snoc guard g st.segments segment);
  }

  flushed_at-IsPassed :
      (g : guard.State) (boundary : Option ℕ) (st : Streaming J guard.State)
      → IsPassed g st
      → IsPassed g (flushed_at guard boundary st)
  unfolding flushed_at
  flushed_at-IsPassed g none st h = h
  flushed_at-IsPassed g (some n) st h =
      let cut = record st { pending_segment = drop n st.pending_segment } in
      let h' : IsPassed g cut = record { guard_state = h.guard_state; spoken = h.spoken } in
      let done' = emit-IsPassed g (take n st.pending_segment) cut h' in
      elim (Bool-cases (has_words (take n st.pending_segment))) [
        | inl words ↦ rw words (record { guard_state = done'.guard_state; spoken = done'.spoken })
        | inr blank ↦ rw blank h'
      ]

  take_text-IsPassed :
      (g : guard.State) (delta : Text) (st : Streaming J guard.State)
      → IsPassed g st
      → IsPassed g (take_text guard delta st)
  unfolding take_text
  take_text-IsPassed g delta st h =
      let seg_min : ℕ = if st.emit_count == 0 then 16 else 40 in
      let grown = record st {
        text = st.text ++ delta;
        pending_segment = st.pending_segment ++ delta;
      } in
      elim (Bool-cases (length delta == 0)) [
        | inl empty ↦ rw empty h
        | inr more ↦ rw more (
            flushed_at-IsPassed g
              (find_speech_segment_boundary (st.pending_segment ++ delta) seg_min) grown
              (record { guard_state = h.guard_state; spoken = h.spoken }))
      ]

  flushed_at-text :
      (boundary : Option ℕ) (st : Streaming J guard.State)
      → (flushed_at guard boundary st).text ≡ st.text
  unfolding flushed_at emit
  flushed_at-text none st = refl
  flushed_at-text (some n) st = elim (Bool-cases (has_words (take n st.pending_segment))) [
    | inl words ↦ rw words refl
    | inr blank ↦ rw blank refl
  ]

  take_text-text :
      (delta : Text) (st : Streaming J guard.State)
      → (take_text guard delta st).text ≡ st.text ++ delta
  unfolding take_text
  take_text-text delta st =
      let seg_min : ℕ = if st.emit_count == 0 then 16 else 40 in
      let grown = record st {
        text = st.text ++ delta;
        pending_segment = st.pending_segment ++ delta;
      } in
      elim (Bool-cases (length delta == 0)) [
        | inl empty ↦
            rw empty (sym (ap (λ t. st.text ++ t) (empty_text delta empty) ∙ append-nil st.text))
        | inr more ↦ rw more (
            flushed_at-text (find_speech_segment_boundary (st.pending_segment ++ delta) seg_min)
              grown)
      ]

  -- What the loop brings: the text of the stream, and what the guard lets through of the segments.
  abbrev pub Brings : guard.State → Stream J → Streaming J guard.State → Type 0
  Brings g stream st =
      ((stream_loop guard stream st).text ≡ st.text ++ deltas stream)
      × IsPassed g (stream_loop guard stream st)

  same-Brings :
      (g : guard.State) (st st' : Streaming J guard.State)
      → IsPassed g st
      → st'.text ≡ st.text
      → st'.guard ≡ st.guard
      → st'.segments ≡ st.segments
      → st'.spoken ≡ st.spoken
      → (st'.text ≡ st.text ++ []) × IsPassed g st'
  same-Brings g st st' h text guard' segments spoken' = (
    text ∙ sym (append-nil st.text),
    record {
      guard_state = rw (guard', segments) h.guard_state;
      spoken = rw (spoken', segments) h.spoken;
    },
  )

  pub stream_loop-Brings :
      (g : guard.State) (stream : Stream J) (st : Streaming J guard.State)
      → IsPassed g st
      → Brings g stream st
  unfolding stream_loop deltas
  stream_loop-Brings g finished st h = same-Brings g st st h refl refl refl refl
  stream_loop-Brings g (throws message true) st h = same-Brings g st _ h refl refl refl refl
  stream_loop-Brings g (throws message false) st h = same-Brings g st _ h refl refl refl refl
  stream_loop-Brings g (yields true (text_delta delta) rest) st h =
      same-Brings g st _ h refl refl refl refl
  stream_loop-Brings g (yields false (text_delta delta) rest) st h =
      let (text, passed') =
        stream_loop-Brings g rest (take_text guard delta st) (take_text-IsPassed g delta st h) in
      (
        text
            ∙ ap (λ t. t ++ deltas rest) (take_text-text delta st)
            ∙ append_assoc st.text delta (deltas rest),
        passed',
      )
  stream_loop-Brings g (yields true (tool_call call) rest) st h =
      same-Brings g st _ h refl refl refl refl
  stream_loop-Brings g (yields false (tool_call call) rest) st h =
      stream_loop-Brings g rest (record st { tool_calls = st.tool_calls ++ call ∷ [] })
        (record { guard_state = h.guard_state; spoken = h.spoken })
  stream_loop-Brings g (yields true (done reason) rest) st h =
      same-Brings g st _ h refl refl refl refl
  stream_loop-Brings g (yields false (done reason) rest) st h =
      same-Brings g st st h refl refl refl refl
  stream_loop-Brings g (yields true (error message retryable) rest) st h =
      same-Brings g st _ h refl refl refl refl
  stream_loop-Brings g (yields false (error message retryable) rest) st h =
      same-Brings g st _ h refl refl refl refl

  -- What is returned: what has been handed on; or the error of the provider, where there is no text.
  abbrev pub Returns : List Text → Text → Streaming J guard.State → Completion J → Type 0
  Returns spoken text st completion =
      ((failed : Bool) × (completion ≡ completed spoken st.tool_calls st.interrupted failed))
      ⊎ ((message : String) × (retryable : Bool) × (completion
            ≡ provider_completion_error message retryable)
          × (text ≡ []))

  pub completion_of-Returns :
      (provider_error : Option (String × Bool)) (st : Streaming J guard.State)
      → Returns st.spoken st.text st (completion_of guard provider_error st)
  unfolding completion_of
  completion_of-Returns none st = inl (false, refl)
  completion_of-Returns (some (message, retryable)) st =
      split (not st.interrupted) (length st.text == 0) (length st.tool_calls == 0)
        (empty_text st.text)
    where
      split :
          (a b c : Bool)
          → (b ≡ true → st.text ≡ [])
          → Returns st.spoken st.text st (
              if a && b && c
              then provider_completion_error message retryable
              else completed st.spoken st.tool_calls st.interrupted true)
      split true true true e = inr (message, retryable, refl, e refl)
      split true true false e = inl (true, refl)
      split true false c e = inl (true, refl)
      split false b c e = inl (true, refl)

  emit-text :
      (segment : Text) (st : Streaming J guard.State) → (emit guard segment st).text ≡ st.text
  unfolding emit
  emit-text segment st = refl

  pub flush_rest-Brings :
      (g : guard.State) (st : Streaming J guard.State)
      → IsPassed g st
      → ((flush_rest guard st).text ≡ st.text) × IsPassed g (flush_rest guard st)
  unfolding flush_rest
  flush_rest-Brings g st h =
      let emitted = emit-IsPassed g st.pending_segment st h in
      elim (Bool-cases (has_words st.pending_segment)) [
        | inl more ↦ rw more (emit-text st.pending_segment st, emitted)
        | inr blank ↦ rw blank (refl, h)
      ]
