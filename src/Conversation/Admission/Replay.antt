-- ===== src/Conversation/Admission/Replay.antt =====
-- `execute` of handle-turn.use-case.ts: a turn that is repeated.
use ethixweb_ai_csr.Common.{
  ℕ, ◌+◌, ◌*◌, ◌<◌, ◌≡◌, refl, false, List, [], ◌∷◌, none, some, arith, is_some, if◌then◌else◌,
  eq_iff, length, ◌==◌,
}
use ethixweb_ai_csr.Kernel.Idempotency
use ethixweb_ai_csr.Kernel.Idempotency.{Store, completed, expiry, begin_key, complete}
use ethixweb_ai_csr.Kernel.Idempotency.View.{begin_key_lem, begin_key_taken, complete_lem}
use ethixweb_ai_csr.Conversation.Records.{Text, Conversation}
use ethixweb_ai_csr.Conversation.Repository.{Repository, find_by_id}
use ethixweb_ai_csr.Conversation.Admission.{
  HandleTurnCommand, HandleTurnResult, TurnOutcome, returned, ran, turn_ttl_seconds, turn_key,
  handle_turn, run_admitted, admit_turn, admit_found, admission, settle_turn, replayed,
}

module _ {J : Type 0} (repository : Repository J)
    (run_turn : HandleTurnCommand J
      → Conversation J
      → repository.State
      → repository.State × TurnOutcome × List Text) where
  open repository use {State}

  -- The conversation of the command is there and has not ended.
  abbrev pub Runs : HandleTurnCommand J → State → Conversation J → Type 0
  Runs c s conversation =
      (find_by_id repository c.tenant_id c.conversation_id s ≡ some conversation)
      × (is_some conversation.ended_at ≡ false)

  handle_turn-Runs :
      (c : HandleTurnCommand J) (started finished : ℕ) (s s₁ : State)
      (store : Store HandleTurnResult) (conversation : Conversation J) (r : HandleTurnResult)
      (chunks : List Text)
      → Runs c s conversation
      → Idempotency.live (turn_key c) started store ≡ none
      → run_turn c conversation s ≡ (s₁, returned r, chunks)
      → handle_turn repository run_turn c started finished s store ≡ (
        s₁,
        complete
            (turn_key c)
            r
            turn_ttl_seconds
            finished
            (begin_key (turn_key c) turn_ttl_seconds started store).0,
        ran (returned r),
        chunks,
      )
  unfolding handle_turn run_admitted admit_turn admit_found admission settle_turn
  handle_turn-Runs c started finished s s₁ store conversation r chunks there free runs =
      let began =
        begin_key_lem (turn_key c) turn_ttl_seconds started started (turn_key c) store
          (omega arith) in
      rw (there.0, there.1, began.0, free, runs) refl

  handle_turn_replays :
      (c : HandleTurnCommand J) (again ends : ℕ) (s : State) (store : Store HandleTurnResult)
      (conversation : Conversation J) (r : HandleTurnResult) (until : ℕ)
      → Runs c s conversation
      → Idempotency.live (turn_key c) again store ≡ some (completed r until)
      → handle_turn repository run_turn c again ends s store ≡ (
        s,
        store,
        ran (returned r),
        if length r.response_text == 0 then [] else r.response_text ∷ [],
      )
  unfolding handle_turn run_admitted admit_turn admit_found admission replayed
  handle_turn_replays c again ends s store conversation r until there taken =
      rw
        (
          there.0,
          there.1,
          begin_key_taken (turn_key c) turn_ttl_seconds again store (completed r until) taken,
        )
        refl

  -- A turn of a running conversation whose key is free runs, and answers with its result. If the same
  -- command comes again less than an hour after the turn has ended, while its conversation still runs,
  -- then nothing is run and nothing changes: the same result is the answer, and its words, if it has any,
  -- are spoken as one chunk.
  pub handle_turn_twice :
      (c : HandleTurnCommand J) (started finished again ends : ℕ) (s s₁ s₂ : State)
      (store : Store HandleTurnResult) (conversation later : Conversation J) (r : HandleTurnResult)
      (chunks : List Text)
      → Runs c s conversation
      → Idempotency.live (turn_key c) started store ≡ none
      → run_turn c conversation s ≡ (s₁, returned r, chunks)
      → Runs c s₂ later
      → again < finished + 3600 * 1000
      → let first = handle_turn repository run_turn c started finished s store in
        (first.0 ≡ s₁)
        × (first.2 ≡ ran (returned r))
        × (first.3 ≡ chunks)
        × (handle_turn repository run_turn c again ends s₂ first.1 ≡ (
          s₂,
          first.1,
          ran (returned r),
          if length r.response_text == 0 then [] else r.response_text ∷ [],
        ))
  handle_turn_twice c started finished again ends s s₁ s₂ store conversation later r chunks there
        free runs still early =
      let key = turn_key c in
      let first =
        handle_turn-Runs c started finished s s₁ store conversation r chunks there free runs in
      let store₁ = (begin_key key turn_ttl_seconds started store).0 in
      let shown = complete_lem key r turn_ttl_seconds finished again key store₁ in
      let taken : Idempotency.live key again (complete key r turn_ttl_seconds finished store₁)
          ≡ some (completed r (expiry turn_ttl_seconds finished)) =
        ground (arith, shown, eq_iff key key) in
      rw first (
        refl,
        refl,
        refl,
        handle_turn_replays c again ends s₂ (complete key r turn_ttl_seconds finished store₁) later
            r (expiry turn_ttl_seconds finished) still taken,
      )
