-- ===== src/Conversation/Speech/Whole.antt =====
-- `streamOneCompletion` of handle-turn.use-case.ts: what is spoken of a completion.
use mathlib.Core.List.{append_assoc, append-nil}
use ethixweb_ai_csr.Common.{
  without_space, concat, without_space-append, without_space_blank, concat-append, ℕ, zero, suc,
  ◌≤◌, ◌≡◌, refl, sym, ap, ◌∙◌, inl, inr, true, false, Bool-cases, List, [], ◌∷◌, ◌++◌, Option,
  none, some, arith, take, drop, length, ◌==◌, if◌then◌else◌, has_words, All, All-append, subst,
  false,
}
use ethixweb_ai_csr.Conversation.Records.{Text}
use ethixweb_ai_csr.Conversation.Segments.{find_speech_segment_boundary}
use ethixweb_ai_csr.Conversation.Segments.Bounds.{find_speech_segment_boundary_bounds}
use ethixweb_ai_csr.Conversation.Speech.{
  text_delta, tool_call, done, error, Stream, finished, throws, yields, Guard, Streaming, emit,
  flushed_at, take_text, stream_loop, flush_rest, fresh, stream_one_completion, completion_of,
}
use ethixweb_ai_csr.Conversation.Speech.Passing.{
  deltas, passed, guarded_by, IsPassed, Returns, stream_loop-Brings, flush_rest-Brings,
  completion_of-Returns,
}

take-drop : (n : ℕ) (xs : Text) → take n xs ++ drop n xs ≡ xs
take-drop zero xs = refl
take-drop (suc n) [] = refl
take-drop (suc n) (x ∷ xs) = ap (λ t. x ∷ t) (take-drop n xs)

-- The lengths of the segments that are cut off while the completion comes in.
abbrev pub IsSpeakable : Text → Type 0
IsSpeakable s = (16 ≤ length s) × (length s ≤ 220)

length-take_le : (n : ℕ) (xs : Text) → n ≤ length xs → length (take n xs) ≡ n
length-take_le zero xs h = refl
length-take_le (suc n) [] h = absurd (omega arith)
length-take_le (suc n) (x ∷ xs) h = omega (arith, length-take_le n xs)

module _ {J : Type 0} (guard : Guard) where
  -- What has been handed to the guard and what is pending make up the text, but for white space.
  abbrev Accounts : Streaming J guard.State → Type 0
  Accounts st =
      without_space (concat st.segments) ++ without_space st.pending_segment ≡ without_space st.text

  flushed_at-Accounts :
      (boundary : Option ℕ) (st : Streaming J guard.State)
      → Accounts st
      → Accounts (flushed_at guard boundary st)
  unfolding flushed_at emit
  flushed_at-Accounts none st h = h
  flushed_at-Accounts (some n) st h =
      let pending = st.pending_segment in
      let whole : without_space (take n pending) ++ without_space (drop n pending)
          ≡ without_space pending =
        sym (without_space-append (take n pending) (drop n pending))
        ∙ ap without_space (take-drop n pending) in
      elim (Bool-cases (has_words (take n pending))) [
        | inl spoken ↦ rw spoken (
            ap (λ t. without_space t ++ without_space (drop n pending))
              (concat-append st.segments (take n pending))
            ∙ ap (λ t. t ++ without_space (drop n pending))
                (without_space-append (concat st.segments) (take n pending))
            ∙ append_assoc (without_space (concat st.segments)) (without_space (take n pending))
                (without_space (drop n pending))
            ∙ ap (λ t. without_space (concat st.segments) ++ t) whole
            ∙ h)
        | inr blank ↦ rw blank (
            ap (λ t. without_space (concat st.segments) ++ t)
              (ap (λ t. t ++ without_space (drop n pending))
                  (sym (without_space_blank (take n pending) blank))
                ∙ whole)
            ∙ h)
      ]

  take_text-Accounts :
      (delta : Text) (st : Streaming J guard.State)
      → Accounts st
      → Accounts (take_text guard delta st)
  unfolding take_text
  take_text-Accounts delta st h =
      let st' = record st {
        text = st.text ++ delta;
        pending_segment = st.pending_segment ++ delta;
      } in
      let seg_min : ℕ = if st.emit_count == 0 then 16 else 40 in
      let grown : Accounts st' =
        ap (λ t. without_space (concat st.segments) ++ t)
          (without_space-append st.pending_segment delta)
        ∙ sym (
            append_assoc (without_space (concat st.segments)) (without_space st.pending_segment)
              (without_space delta))
        ∙ ap (λ t. t ++ without_space delta) h
        ∙ sym (without_space-append st.text delta) in
      elim (Bool-cases (length delta == 0)) [
        | inl empty ↦ rw empty h
        | inr more ↦ rw more (
            flushed_at-Accounts (find_speech_segment_boundary (st.pending_segment ++ delta) seg_min)
              st' grown)
      ]

  flushed_at-IsSpeakable :
      (boundary : Option ℕ) (st : Streaming J guard.State)
      → ((n : ℕ) → boundary ≡ some n → (16 ≤ n) × (n ≤ 220) × (n ≤ length st.pending_segment))
      → All IsSpeakable st.segments
      → All IsSpeakable (flushed_at guard boundary st).segments
  unfolding flushed_at emit
  flushed_at-IsSpeakable none st bounds h = h
  flushed_at-IsSpeakable (some n) st bounds h =
      let segment = take n st.pending_segment in
      let (low, high, there) = bounds n refl in
      let same = length-take_le n st.pending_segment there in
      elim (Bool-cases (has_words segment)) [
        | inl spoken ↦ rw spoken (
            All-append IsSpeakable st.segments (segment ∷ []) h
              ((omega (arith, same, low), omega (arith, same, high)), tt))
        | inr blank ↦ rw blank h
      ]

  take_text-IsSpeakable :
      (delta : Text) (st : Streaming J guard.State)
      → All IsSpeakable st.segments
      → All IsSpeakable (take_text guard delta st).segments
  unfolding take_text
  take_text-IsSpeakable delta st h =
      let st' = record st {
        text = st.text ++ delta;
        pending_segment = st.pending_segment ++ delta;
      } in
      let seg_min : ℕ = if st.emit_count == 0 then 16 else 40 in
      let low : (16 ≤ seg_min) × (seg_min ≤ 220) = ground arith in
      let (bounds, _) =
        find_speech_segment_boundary_bounds (st.pending_segment ++ delta) seg_min low.1 in
      elim (Bool-cases (length delta == 0)) [
        | inl empty ↦ rw empty h
        | inr more ↦ rw more (
            flushed_at-IsSpeakable
              (find_speech_segment_boundary (st.pending_segment ++ delta) seg_min) st'
              (λ n e. let (a, b, c) = bounds n e in (omega (arith, a, low.0), b, c)) h)
      ]

  -- What the loop keeps.
  abbrev IsStreamed : Streaming J guard.State → Type 0
  IsStreamed st = Accounts st × All IsSpeakable st.segments

  stream_loop-IsStreamed :
      (stream : Stream J) (st : Streaming J guard.State)
      → IsStreamed st
      → IsStreamed (stream_loop guard stream st)
  unfolding stream_loop
  stream_loop-IsStreamed finished st h = h
  stream_loop-IsStreamed (throws message true) st h = h
  stream_loop-IsStreamed (throws message false) st h = h
  stream_loop-IsStreamed (yields true (text_delta delta) rest) st h = h
  stream_loop-IsStreamed (yields false (text_delta delta) rest) st h =
      stream_loop-IsStreamed rest (take_text guard delta st)
        (take_text-Accounts delta st h.0, take_text-IsSpeakable delta st h.1)
  stream_loop-IsStreamed (yields true (tool_call call) rest) st h = h
  stream_loop-IsStreamed (yields false (tool_call call) rest) st h =
      stream_loop-IsStreamed rest (record st { tool_calls = st.tool_calls ++ call ∷ [] }) h
  stream_loop-IsStreamed (yields true (done reason) rest) st h = h
  stream_loop-IsStreamed (yields false (done reason) rest) st h = h
  stream_loop-IsStreamed (yields true (error message retryable) rest) st h = h
  stream_loop-IsStreamed (yields false (error message retryable) rest) st h = h

  stream_one_completion-Brings :
      (stream : Stream J) (g : guard.State)
      → let st = flush_rest guard (stream_loop guard stream (fresh guard g)) in
        (st.text ≡ deltas stream) × IsPassed guard g st
  unfolding fresh passed guarded_by
  stream_one_completion-Brings stream g =
      let (text, h) =
        stream_loop-Brings guard g stream (fresh guard g)
          (record { guard_state = refl; spoken = refl }) in
      let (kept, h') = flush_rest-Brings guard g (stream_loop guard stream (fresh guard g)) h in
      (kept ∙ text, h')

  segments-whole :
      (stream : Stream J) (g : guard.State)
      → let st = flush_rest guard (stream_loop guard stream (fresh guard g)) in
        (without_space (concat st.segments) ≡ without_space st.text)
        × ((front : List Text) × (last : List Text) × (st.segments ≡ front ++ last)
            × All IsSpeakable front
            × (length last ≤ 1))
  unfolding flush_rest fresh emit
  segments-whole stream g =
      let st = stream_loop guard stream (fresh guard g) in
      let (whole, speakable) = stream_loop-IsStreamed stream (fresh guard g) (refl, tt) in
      elim (Bool-cases (has_words st.pending_segment)) [
        | inl more ↦ rw more (
          ap without_space (concat-append st.segments st.pending_segment)
              ∙ without_space-append (concat st.segments) st.pending_segment
              ∙ whole,
          (st.segments, st.pending_segment ∷ [], refl, speakable, omega arith),
        )
        | inr blank ↦ rw blank (
          sym (append-nil (without_space (concat st.segments)))
              ∙ ap (λ t. without_space (concat st.segments) ++ t)
                  (sym (without_space_blank st.pending_segment blank))
              ∙ whole,
          (st.segments, [], sym (append-nil st.segments), speakable, omega arith),
        )
      ]

  -- However a completion comes in, and whether it ends, fails or is aborted: the segments handed to the
  -- output guard are all of the text that the stream has brought up to there, in order, but for white
  -- space; each is 16 to 220 characters long, but for the last, which is what was left. What the guard
  -- makes of them, one after the other, is what is handed on to be spoken, but for what it leaves blank,
  -- and it is what is returned, unless the provider has failed before any text came.
  pub stream_one_completion_lem :
      (stream : Stream J) (g : guard.State)
      → let st = (stream_one_completion guard stream g).0 in
        (without_space (concat st.segments) ≡ without_space (deltas stream))
        × (st.spoken ≡ passed guard g st.segments)
        × Returns guard
            (passed guard g st.segments)
            (deltas stream)
            st
            (stream_one_completion guard stream g).1
        × ((front : List Text) × (last : List Text) × (st.segments ≡ front ++ last)
            × All IsSpeakable front
            × (length last ≤ 1))
  unfolding stream_one_completion
  stream_one_completion_lem stream g =
      let st = flush_rest guard (stream_loop guard stream (fresh guard g)) in
      let (text, brought) = stream_one_completion-Brings stream g in
      let (whole, lengths) = segments-whole stream g in
      (
        whole ∙ ap without_space text,
        brought.spoken,
        subst (λ x. Returns guard x (deltas stream) st (completion_of guard st.provider_error st))
            brought.spoken
            (subst (λ x. Returns guard st.spoken x st (completion_of guard st.provider_error st))
              text (completion_of-Returns guard st.provider_error st)),
        lengths,
      )
