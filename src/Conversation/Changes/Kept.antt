-- ===== src/Conversation/Changes/Kept.antt =====
-- transition-conversation-state.use-case.ts and interrupt-conversation.use-case.ts: what a request does to a
-- conversation while other requests come in between.
use ethixweb_ai_csr.Common.{
  ℕ, ◌≡◌, refl, sym, inl, inr, false, Bool-cases, [], Option, none, some, Option-cases, String,
  arith, is_some,
}
use mathlib.Core.List.{append-nil}
use ethixweb_ai_csr.Conversation.States.{ConversationState, silence, is_valid_transition}
use ethixweb_ai_csr.Conversation.Records.{Conversation}
use ethixweb_ai_csr.Conversation.Repository.{Repository, find_by_id}
use ethixweb_ai_csr.Conversation.Repository.Evolution.{
  Change, Evolves, Evolves-refl, Evolves-trans, save_step,
}
use ethixweb_ai_csr.Conversation.Changes.{
  saved_or_conflict, retry, first_saved, first_read, transition_conversation_state,
  interrupt_conversation, annotate_interrupted_response,
}

module _ {J : Type 0} where
  -- What is changed beside the state.
  abbrev Changes : (Conversation J → Conversation J) → Type 0
  Changes change =
      (c : Conversation J) (to_state : ConversationState)
      → c.ended_at ≡ none
      → Change c (change (record c { state = to_state }))

  same_state : Changes (λ c. c)
  same_state c to_state running = record {
    version = refl;
    running = running;
    continued = ([], sym (append-nil c.transcript));
    same = (refl, refl, refl, refl, refl, refl);
  }

  annotated : Changes annotate_interrupted_response
  unfolding annotate_interrupted_response
  annotated c to_state running = record {
    version = refl;
    running = running;
    continued = ([], sym (append-nil c.transcript));
    same = (refl, refl, refl, refl, refl, refl);
  }

  pub not_ended : (c : Conversation J) → is_some c.ended_at ≡ false → c.ended_at ≡ none
  not_ended c e = elim (Option-cases c.ended_at) [
    | inl running ↦ running
    | inr (t, ended) ↦ absurd (ground (arith, ended))
  ]

module _ {J : Type 0} (repository : Repository J) (k : String) where
  open repository use {State, IsValid, stored, save}

  -- Other requests do to the conversation what the requests of a call do.
  abbrev pub Rely : (State → State) → Type 0
  Rely others = (s : State) → IsValid s → Evolves repository k s (others s)

  module _ (tenant_id id : String) (to_state : ConversationState)
      (change : Conversation J → Conversation J) (changes : Changes change) where
    saved_or_conflict-state :
        (r : State × Option (Conversation J)) → (saved_or_conflict repository id r).0 ≡ r.0
    unfolding saved_or_conflict
    saved_or_conflict-state (s, none) = refl
    saved_or_conflict-state (s, some c) = refl

    retry-Evolves :
        (others : State → State) (found : Option (Conversation J)) (s : State)
        → IsValid s
        → find_by_id repository tenant_id id s ≡ found
        → Rely others
        → Evolves repository k s (retry repository id to_state change others found s).0
    unfolding retry find_by_id
    retry-Evolves others none s v read rely = Evolves-refl repository k s v
    retry-Evolves others (some c) s v read rely = elim (Bool-cases (is_some c.ended_at)) [
      | inl ended ↦ rw ended (Evolves-refl repository k s v)
      | inr running ↦ elim (Bool-cases (is_valid_transition c.state to_state)) [
        | inl valid ↦
            let c' = change (record c { state = to_state }) in
            rw (running, valid, saved_or_conflict-state (save c' (others s)))
              (Evolves-trans repository k s (others s) (save c' (others s)).0 (rely s v) (
                save_step repository k s (others s) c c' v read
                  (changes c to_state (not_ended c running)) (rely s v)))
        | inr invalid ↦ rw (running, invalid) (Evolves-refl repository k s v)
      ]
    ]

    first_saved-Evolves :
        (others : ℕ → State → State) (r : State × Option (Conversation J))
        → IsValid r.0
        → ((n : ℕ) → Rely (others n))
        → Evolves repository k r.0 (first_saved repository tenant_id id to_state change others r).0
    unfolding first_saved
    first_saved-Evolves others (s, some c) v rely = Evolves-refl repository k s v
    first_saved-Evolves others (s, none) v rely =
        let s' = others 1 s in
        let step = rely 1 s v in
        Evolves-trans repository k s s'
          (retry repository id to_state change (others 2) (find_by_id repository tenant_id id s')
            s').0
          step
          (retry-Evolves (others 2) (find_by_id repository tenant_id id s') s' step.valid refl
            (rely 2))

    first_read-Evolves :
        (others : ℕ → State → State) (found : Option (Conversation J)) (s : State)
        → IsValid s
        → find_by_id repository tenant_id id s ≡ found
        → ((n : ℕ) → Rely (others n))
        → Evolves repository k s
            (first_read repository tenant_id id to_state change others found s).0
    unfolding first_read find_by_id
    first_read-Evolves others none s v read rely = Evolves-refl repository k s v
    first_read-Evolves others (some c) s v read rely = elim (Bool-cases (is_some c.ended_at)) [
      | inl ended ↦ rw ended (Evolves-refl repository k s v)
      | inr running ↦ elim (Bool-cases (is_valid_transition c.state to_state)) [
        | inl valid ↦
            let c' = change (record c { state = to_state }) in
            let r = save c' (others 0 s) in
            let step =
              save_step repository k s (others 0 s) c c' v read
                (changes c to_state (not_ended c running)) (rely 0 s v) in
            rw (running, valid)
              (Evolves-trans repository k s (others 0 s)
                (first_saved repository tenant_id id to_state change others r).0 (rely 0 s v)
                (Evolves-trans repository k (others 0 s) r.0
                  (first_saved repository tenant_id id to_state change others r).0 step
                  (first_saved-Evolves others r step.valid rely)))
        | inr invalid ↦ rw (running, invalid) (Evolves-refl repository k s v)
      ]
    ]

  pub transition_conversation_state-Evolves :
      (tenant_id id : String) (to_state : ConversationState) (others : ℕ → State → State)
      (s : State)
      → IsValid s
      → ((n : ℕ) → Rely (others n))
      → Evolves repository k s
          (transition_conversation_state repository tenant_id id to_state others s).0
  unfolding transition_conversation_state
  transition_conversation_state-Evolves tenant_id id to_state others s v rely =
      first_read-Evolves tenant_id id to_state (λ c. c) same_state others
        (find_by_id repository tenant_id id s) s v refl rely

  -- If what other requests do meanwhile makes of a stored conversation only what the requests of a call
  -- may make of it, then so does an interruption together with them, whichever conversation it is of. The
  -- stored conversation is kept, or it has moved on while it had not ended: to a greater version, of the
  -- same call, with its transcript continued; or it has expired. Where none is stored, none is afterwards.
  interrupt_conversation-Evolves :
      (tenant_id id : String) (others : ℕ → State → State) (s : State)
      → IsValid s
      → ((n : ℕ) → Rely (others n))
      → Evolves repository k s (interrupt_conversation repository tenant_id id others s).0
  unfolding interrupt_conversation
  interrupt_conversation-Evolves tenant_id id others s v rely =
      first_read-Evolves tenant_id id silence annotate_interrupted_response annotated others
        (find_by_id repository tenant_id id s) s v refl rely
