-- ===== src/Conversation/Speech.antt =====
-- `streamOneCompletion` of application/handle-turn.use-case.ts of
-- apps/voice-orchestrator/src/modules/conversation: a completion is cut into segments that are spoken while
-- it still comes in. The stream of the provider and the output guard are parameters.
pub mod Passing
pub mod Whole
use ethixweb_ai_csr.Common.{
  ℕ, suc, Bool, true, false, not, ◌&&◌, List, [], ◌∷◌, ◌++◌, Option, none, some, String, take, drop,
  length, ◌==◌, if◌then◌else◌, has_words,
}
use ethixweb_ai_csr.Conversation.Segments.{
  min_first_segment_chars, min_speech_segment_chars, find_speech_segment_boundary,
}
use ethixweb_ai_csr.Conversation.Records.{Text, AiToolCallRequest}

pub data StopReason : Type 0 where
  end_turn tool_use max_tokens : StopReason

pub data AiCompletionChunk (J : Type 0) : Type 0 where
  text_delta : Text → AiCompletionChunk J
  tool_call : AiToolCallRequest J → AiCompletionChunk J
  done : StopReason → AiCompletionChunk J
  error : String → Bool → AiCompletionChunk J

-- What the provider yields, each chunk with whether the turn has been aborted by then; the stream ends by
-- itself or throws.
pub data Stream (J : Type 0) : Type 0 where
  finished : Stream J
  throws : String → Bool → Stream J
  yields : Bool → AiCompletionChunk J → Stream J → Stream J

-- The output guard, with its state: what is spoken of a segment.
pub record Guard : Type 1 where
  pub State : Type 0
  pub apply : State → Text → State × Text

-- The variables of the loop; `segments` are what has been handed to the guard, `spoken` what has been
-- handed on to the caller, both in their order.
pub record Streaming (J G : Type 0) : Type 0 where
  pub text : Text
  pub pending_segment : Text
  pub emit_count : ℕ
  pub tool_calls : List (AiToolCallRequest J)
  pub interrupted : Bool
  pub provider_error : Option (String × Bool)
  pub guard : G
  pub segments : List Text
  pub spoken : List Text

-- What is returned, but for `onlyRepeated`, which is about the guard; or `ProviderCompletionError`.
pub data Completion (J : Type 0) : Type 0 where
  completed : List Text → List (AiToolCallRequest J) → Bool → Bool → Completion J
  provider_completion_error : String → Bool → Completion J

module _ {J : Type 0} (guard : Guard) where
  unfoldable pub emit : Text → Streaming J guard.State → Streaming J guard.State
  emit segment st =
      let (guard', guarded) = guard.apply st.guard segment in
      record st {
        guard = guard';
        segments = st.segments ++ segment ∷ [];
        spoken = if has_words guarded then st.spoken ++ guarded ∷ [] else st.spoken;
      }

  flushed_at : Option ℕ → Streaming J guard.State → Streaming J guard.State
  unfolding emit
  flushed_at none st = st
  flushed_at (some boundary) st =
      let segment = take boundary st.pending_segment in
      let st' = record st { pending_segment = drop boundary st.pending_segment } in
      if has_words segment
      then (let st'' = emit segment st' in record st'' { emit_count = suc st''.emit_count })
      else st'

  -- A delta: it is put to what is pending, and one segment is cut off there, if one ends.
  unfoldable pub take_text : Text → Streaming J guard.State → Streaming J guard.State
  unfolding flushed_at
  take_text delta st =
      let st' = record st {
        text = st.text ++ delta;
        pending_segment = st.pending_segment ++ delta;
      } in
      let seg_min =
        if st.emit_count == 0 then min_first_segment_chars else min_speech_segment_chars in
      if length delta == 0
      then st
      else flushed_at (find_speech_segment_boundary st'.pending_segment seg_min) st'

  unfoldable pub stream_loop : Stream J → Streaming J guard.State → Streaming J guard.State
  unfolding take_text
  stream_loop finished st = st
  stream_loop (throws message aborted) st =
      if aborted
      then record st { interrupted = true }
      else record st { provider_error = some (message, true) }
  stream_loop (yields aborted (text_delta delta) rest) st =
      let later = stream_loop rest (take_text delta st) in
      if aborted then record st { interrupted = true } else later
  stream_loop (yields aborted (tool_call call) rest) st =
      let later = stream_loop rest (record st { tool_calls = st.tool_calls ++ call ∷ [] }) in
      if aborted then record st { interrupted = true } else later
  stream_loop (yields aborted (done reason) rest) st =
      if aborted then record st { interrupted = true } else st
  stream_loop (yields aborted (error message retryable) rest) st =
      if aborted
      then record st { interrupted = true }
      else record st { provider_error = some (message, retryable) }

  -- What is left is spoken too.
  unfoldable pub flush_rest : Streaming J guard.State → Streaming J guard.State
  unfolding emit
  flush_rest st = if has_words st.pending_segment then emit st.pending_segment st else st

  unfoldable pub fresh : guard.State → Streaming J guard.State
  fresh g = record {
    text = [];
    pending_segment = [];
    emit_count = 0;
    tool_calls = [];
    interrupted = false;
    provider_error = none;
    guard = g;
    segments = [];
    spoken = [];
  }

  unfoldable pub completion_of : Option (String × Bool) → Streaming J guard.State → Completion J
  completion_of none st = completed st.spoken st.tool_calls st.interrupted false
  completion_of (some (message, retryable)) st =
      if not st.interrupted && length st.text == 0 && length st.tool_calls == 0
      then provider_completion_error message retryable
      else completed st.spoken st.tool_calls st.interrupted true

  -- `streamOneCompletion`, with the variables at its end.
  unfoldable pub stream_one_completion :
      Stream J → guard.State → Streaming J guard.State × Completion J
  unfolding stream_loop flush_rest fresh completion_of
  stream_one_completion stream g =
      let st = flush_rest (stream_loop stream (fresh g)) in (st, completion_of st.provider_error st)
