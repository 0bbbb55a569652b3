-- ===== src/Conversation/Ending/Sends.antt =====
-- end-conversation.use-case.ts: what an end stores and sends while other requests come in.
use ethixweb_ai_csr.Common.{
  ℕ, ◌≡◌, refl, sym, ap, ◌∙◌, ◌⊎◌, inl, inr, false, Bool-cases, List, [], Option, none, some,
  String, arith, is_some,
}
use mathlib.Core.List.{append-nil}
use ethixweb_ai_csr.Conversation.Records.{Conversation}
use ethixweb_ai_csr.Conversation.Repository.{Repository, find_by_id, key, next_version}
use ethixweb_ai_csr.Conversation.Repository.Evolution.{
  Change, Evolves, Evolves-refl, Evolves-trans, save_step, save_cases, some_eq, some_ne_none,
}
use ethixweb_ai_csr.Conversation.Changes.{Answer}
use ethixweb_ai_csr.Conversation.Changes.Kept.{Rely, not_ended}
use ethixweb_ai_csr.Conversation.Ending.{
  EndConversationCommand, Effect, ending_effects, ended_conversation, finish, retry_saved,
  retry_end, saved_end, read_end, end_conversation,
}

module _ {J : Type 0} where
  pub ended_conversation-Change :
      (now : ℕ) (end_reason : String) (c : Conversation J)
      → c.ended_at ≡ none
      → Change c (ended_conversation now end_reason c)
  unfolding ended_conversation
  ended_conversation-Change now end_reason c running = record {
    version = refl;
    running = running;
    continued = ([], sym (append-nil c.transcript));
    same = (refl, refl, refl, refl, refl, refl);
  }

module _ {J : Type 0} (repository : Repository J) where
  open repository use {State, IsValid, stored, save}

  -- What an end has done, for the conversation under its key: nothing but to answer, or it has stored
  -- the end and sent what goes with it.
  abbrev pub Outcome : EndConversationCommand → ℕ → State × Answer J × List (Effect J) → Type 0
  Outcome c now r =
      (r.2 ≡ [])
      ⊎ ((saved : Conversation J) × (stored (key c.tenant_id c.conversation_id) r.0 ≡ some saved)
          × (saved.ended_at ≡ some now)
          × (r.2 ≡ ending_effects saved now c.end_reason))

  abbrev pub Saved : EndConversationCommand → ℕ → State × Option (Conversation J) → Type 0
  Saved c now r =
      (r.1 ≡ none)
      ⊎ ((saved : Conversation J) × (r.1 ≡ some saved)
          × (stored (key c.tenant_id c.conversation_id) r.0 ≡ some saved)
          × (saved.ended_at ≡ some now))

  -- A save of the end, with other requests before it.
  pub save_end :
      (c : EndConversationCommand) (now : ℕ) (s : State) (others : State → State)
      (base : Conversation J)
      → IsValid s
      → stored (key c.tenant_id c.conversation_id) s ≡ some base
      → is_some base.ended_at ≡ false
      → Rely repository (key c.tenant_id c.conversation_id) others
      → let r = save (ended_conversation now c.end_reason base) (others s) in
        Evolves repository (key c.tenant_id c.conversation_id) s r.0 × Saved c now r
  unfolding ended_conversation next_version
  save_end c now s others base v read running rely =
      let k = key c.tenant_id c.conversation_id in
      let e = ended_conversation now c.end_reason base in
      let change = ended_conversation-Change now c.end_reason base (not_ended base running) in
      let step = rely s v in
      (
        Evolves-trans repository k s (others s) (save e (others s)).0 step
            (save_step repository k s (others s) base e v read change step),
        elim (save_cases repository k s (others s) base e read
            (repository.stored_own k s base v read) change step) [
              | inl (lost, kept) ↦ inl lost
              | inr (saved, there, after) ↦ inr (next_version e, saved, after, refl)
            ],
      )

  module _ (c : EndConversationCommand) (now : ℕ) (publish_error : Option String) where
    abbrev Ends : State → State × Answer J × List (Effect J) → Type 0
    Ends s r = Evolves repository (key c.tenant_id c.conversation_id) s r.0 × Outcome c now r

    retry_saved-Ends :
        (s : State) (r : State × Option (Conversation J))
        → Evolves repository (key c.tenant_id c.conversation_id) s r.0
        → Saved c now r
        → Ends s (retry_saved repository c now publish_error r)
    unfolding retry_saved finish
    retry_saved-Ends s (s', none) step o = (step, inl refl)
    retry_saved-Ends s (s', some saved) step (inl lost) = absurd (ground (arith, lost))
    retry_saved-Ends s (s', some saved) step (inr (saved', e, there, at)) =
        (step, inr (saved, there ∙ sym e, ap (λ x. x.ended_at) (some_eq saved saved' e) ∙ at, refl))

    retry_end-Ends :
        (others : State → State) (found : Option (Conversation J)) (s : State)
        → IsValid s
        → find_by_id repository c.tenant_id c.conversation_id s ≡ found
        → Rely repository (key c.tenant_id c.conversation_id) others
        → Ends s (retry_end repository c now publish_error others found s)
    unfolding retry_end find_by_id
    retry_end-Ends others none s v read rely =
        (Evolves-refl repository (key c.tenant_id c.conversation_id) s v, inl refl)
    retry_end-Ends others (some fresh) s v read rely = elim (Bool-cases (is_some fresh.ended_at)) [
      | inl over ↦
          rw over (Evolves-refl repository (key c.tenant_id c.conversation_id) s v, inl refl)
      | inr running ↦
          let saved = save_end c now s others fresh v read running rely in
          rw running (
            retry_saved-Ends s (save (ended_conversation now c.end_reason fresh) (others s)) saved.0
              saved.1)
    ]

    saved_end-Ends :
        (others : ℕ → State → State) (s : State) (r : State × Option (Conversation J))
        → Evolves repository (key c.tenant_id c.conversation_id) s r.0
        → Saved c now r
        → ((n : ℕ) → Rely repository (key c.tenant_id c.conversation_id) (others n))
        → Ends s (saved_end repository c now publish_error others r)
    unfolding saved_end finish
    saved_end-Ends others s (s', some saved) step (inl lost) rely = absurd (some_ne_none saved lost)
    saved_end-Ends others s (s', some saved) step (inr (saved', e, there, at)) rely =
        (step, inr (saved, there ∙ sym e, ap (λ x. x.ended_at) (some_eq saved saved' e) ∙ at, refl))
    saved_end-Ends others s (s', none) step o rely =
        let k = key c.tenant_id c.conversation_id in
        let t = others 1 s' in
        let between = rely 1 s' step.valid in
        let found = find_by_id repository c.tenant_id c.conversation_id t in
        let (later, outcome) = retry_end-Ends (others 2) found t between.valid refl (rely 2) in
        let r = retry_end repository c now publish_error (others 2) found t in
        (
          Evolves-trans repository k s s' r.0 step
              (Evolves-trans repository k s' t r.0 between later),
          outcome,
        )

    read_end-Ends :
        (others : ℕ → State → State) (found : Option (Conversation J)) (s : State)
        → IsValid s
        → find_by_id repository c.tenant_id c.conversation_id s ≡ found
        → ((n : ℕ) → Rely repository (key c.tenant_id c.conversation_id) (others n))
        → Ends s (read_end repository c now publish_error others found s)
    unfolding read_end find_by_id
    read_end-Ends others none s v read rely =
        (Evolves-refl repository (key c.tenant_id c.conversation_id) s v, inl refl)
    read_end-Ends others (some base) s v read rely = elim (Bool-cases (is_some base.ended_at)) [
      | inl over ↦
          rw over (Evolves-refl repository (key c.tenant_id c.conversation_id) s v, inl refl)
      | inr running ↦
          let saved = save_end c now s (others 0) base v read running (rely 0) in
          rw running (
            saved_end-Ends others s (save (ended_conversation now c.end_reason base) (others 0 s))
              saved.0 saved.1 rely)
    ]

    -- Whatever other requests do meanwhile, an end either sends nothing, or it has stored the end with the
    -- conversation as it was by then, and its sends are those of what it has stored: the end of the call,
    -- its usage, the release of the capacity reserved for it, and the event.
    pub end_conversation_lem :
        (others : ℕ → State → State) (s : State)
        → IsValid s
        → ((n : ℕ) → Rely repository (key c.tenant_id c.conversation_id) (others n))
        → Evolves repository
            (key c.tenant_id c.conversation_id)
            s
            (end_conversation repository c now publish_error others s).0
          × Outcome c now (end_conversation repository c now publish_error others s)
    unfolding end_conversation
    end_conversation_lem others s v rely =
        read_end-Ends others (find_by_id repository c.tenant_id c.conversation_id s) s v refl rely
