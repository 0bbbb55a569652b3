-- ===== src/Conversation/Ending/Once.antt =====
-- end-conversation.use-case.ts: how often a conversation ends while other requests come in.
use ethixweb_ai_csr.Common.{
  ℕ, ◌≡◌, ◌≢◌, refl, sym, ap, ◌∙◌, ◌⊎◌, inl, inr, false, Bool-cases, [], Option, none, some, String,
  arith, is_some, subst,
}
use ethixweb_ai_csr.Conversation.Records.{Conversation}
use ethixweb_ai_csr.Conversation.Repository.{Repository, find_by_id, key}
use ethixweb_ai_csr.Conversation.Repository.Evolution.{Evolves, save_cases, some_eq, some_ne_none}
use ethixweb_ai_csr.Conversation.Changes.Kept.{Rely, not_ended}
use ethixweb_ai_csr.Conversation.Ending.{
  EndConversationCommand, ended_conversation, retry_saved, retry_end, saved_end, read_end,
  end_conversation,
}
use ethixweb_ai_csr.Conversation.Ending.Sends.{
  ended_conversation-Change, save_end, end_conversation_lem,
}

module _ {J : Type 0} (repository : Repository J) where
  open repository use {State, IsValid, stored, save}

  -- What has ended stays, or expires.
  pub Evolves-ended :
      (k : String) (s s' : State) (r : Conversation J) (t : ℕ)
      → Evolves repository k s s'
      → stored k s ≡ some r
      → r.ended_at ≡ some t
      → (stored k s' ≡ none) ⊎ (stored k s' ≡ some r)
  Evolves-ended k s s' r t step there ended_at = elim (step.later r there) [
    | inl gone ↦ inl gone
    | inr (r', there', inl same) ↦ inr (there' ∙ ap some same)
    | inr (r', there', inr newer) ↦ absurd (ground (arith, newer.running, ended_at))
  ]

  -- Nothing is stored under a key, or this.
  abbrev IsLeft : String → Conversation J → State → Type 0
  IsLeft k ended s = (stored k s ≡ none) ⊎ (stored k s ≡ some ended)

  -- No running conversation is among that.
  IsLeft-running {ℓ} :
      {A : Type ℓ} (k : String) (ended running : Conversation J) (t : ℕ) (s : State)
      → ended.ended_at ≡ some t
      → is_some running.ended_at ≡ false
      → IsLeft k ended s
      → stored k s ≡ some running
      → A
  IsLeft-running k ended running t s over open_yet (inl gone) there =
      absurd (some_ne_none running (sym there ∙ gone))
  IsLeft-running k ended running t s over open_yet (inr left) there = absurd (
      let same = some_eq running ended (sym there ∙ left) in
      ground (arith, ap (λ x. is_some x.ended_at) same, over, open_yet))

  module _ (d : EndConversationCommand) (now : ℕ) (publish_error : Option String)
      (ended : Conversation J) (t : ℕ) (over : ended.ended_at ≡ some t) where
    -- The save of an end where another has been stored already is lost.
    save-IsLeft :
        (s p : State) (base : Conversation J)
        → IsValid s
        → stored (key d.tenant_id d.conversation_id) s ≡ some base
        → is_some base.ended_at ≡ false
        → Evolves repository (key d.tenant_id d.conversation_id) s p
        → IsLeft (key d.tenant_id d.conversation_id) ended p
        → ((save (ended_conversation now d.end_reason base) p).1 ≡ none)
          × IsLeft
              (key d.tenant_id d.conversation_id)
              ended
              (save (ended_conversation now d.end_reason base) p).0
    save-IsLeft s p base v read running since left =
        let k = key d.tenant_id d.conversation_id in
        let e = ended_conversation now d.end_reason base in
        let change = ended_conversation-Change now d.end_reason base (not_ended base running) in
        elim (save_cases repository k s p base e read (repository.stored_own k s base v read) change
          since) [
            | inl (lost, kept) ↦ (lost, subst (λ o. (o ≡ none) ⊎ (o ≡ some ended)) (sym kept) left)
            | inr (saved, there, after) ↦ IsLeft-running k ended base t p over running left there
          ]

    retry_saved-none :
        (r : State × Option (Conversation J))
        → r.1 ≡ none
        → (retry_saved repository d now publish_error r).2 ≡ []
    unfolding retry_saved
    retry_saved-none (s, none) lost = refl
    retry_saved-none (s, some saved) lost = absurd (some_ne_none saved lost)

    retry_end-IsLeft :
        (others : State → State) (found : Option (Conversation J)) (s : State)
        → IsValid s
        → stored (key d.tenant_id d.conversation_id) s ≡ found
        → Rely repository (key d.tenant_id d.conversation_id) others
        → IsLeft (key d.tenant_id d.conversation_id) ended (others s)
        → (retry_end repository d now publish_error others found s).2 ≡ []
    unfolding retry_end
    retry_end-IsLeft others none s v read rely left = refl
    retry_end-IsLeft others (some fresh) s v read rely left =
        elim (Bool-cases (is_some fresh.ended_at)) [
          | inl over' ↦ rw over' refl
          | inr running ↦ rw running (
              retry_saved-none (save (ended_conversation now d.end_reason fresh) (others s))
                (save-IsLeft s (others s) fresh v read running (rely s v) left).0)
        ]

    saved_end-IsLeft :
        (others : ℕ → State → State) (r : State × Option (Conversation J))
        → IsValid r.0
        → r.1 ≡ none
        → ((n : ℕ) → Rely repository (key d.tenant_id d.conversation_id) (others n))
        → IsLeft (key d.tenant_id d.conversation_id) ended (others 2 (others 1 r.0))
        → (saved_end repository d now publish_error others r).2 ≡ []
    unfolding saved_end find_by_id
    saved_end-IsLeft others (s, some saved) v lost rely left = absurd (some_ne_none saved lost)
    saved_end-IsLeft others (s, none) v lost rely left =
        retry_end-IsLeft (others 2) (stored (key d.tenant_id d.conversation_id) (others 1 s))
          (others 1 s) (rely 1 s v).valid refl (rely 2) left

    IsLeft-later :
        (s s' : State)
        → Evolves repository (key d.tenant_id d.conversation_id) s s'
        → IsLeft (key d.tenant_id d.conversation_id) ended s
        → IsLeft (key d.tenant_id d.conversation_id) ended s'
    IsLeft-later s s' step (inl gone) = inl (step.absent gone)
    IsLeft-later s s' step (inr there) =
        Evolves-ended (key d.tenant_id d.conversation_id) s s' ended t step there over

  -- Another end has been through, in the state `s₁`, before the one that begins in the state `s` can store
  -- anything: before its first save, whatever it has read; or, where its first save was lost to others,
  -- before its second.
  abbrev pub Overlaps : EndConversationCommand → ℕ → (ℕ → State → State) → State → State → Type 0
  Overlaps d now others s s₁ =
      Evolves repository (key d.tenant_id d.conversation_id) s₁ (others 0 s)
      ⊎ ((base : Conversation J) × (stored (key d.tenant_id d.conversation_id) s ≡ some base)
          × ((save (ended_conversation now d.end_reason base) (others 0 s)).1 ≡ none)
          × Evolves repository (key d.tenant_id d.conversation_id) s₁ (
              others 2 (others 1 (save (ended_conversation now d.end_reason base) (others 0 s)).0)))

  read_end-Overlaps :
      (d : EndConversationCommand) (now : ℕ) (publish_error : Option String)
      (others : ℕ → State → State) (s s₁ : State) (found : Option (Conversation J))
      (ended : Conversation J) (t : ℕ)
      → ended.ended_at ≡ some t
      → stored (key d.tenant_id d.conversation_id) s₁ ≡ some ended
      → IsValid s
      → ((n : ℕ) → Rely repository (key d.tenant_id d.conversation_id) (others n))
      → Overlaps d now others s s₁
      → stored (key d.tenant_id d.conversation_id) s ≡ found
      → (read_end repository d now publish_error others found s).2 ≡ []
  unfolding read_end
  read_end-Overlaps d now publish_error others s s₁ none ended t over there v rely meets read = refl
  read_end-Overlaps d now publish_error others s s₁ (some base) ended t over there v rely meets
        read =
      let k = key d.tenant_id d.conversation_id in
      let p = others 0 s in
      let r = save (ended_conversation now d.end_reason base) p in
      let left = IsLeft-later d now publish_error ended t over in
      elim (Bool-cases (is_some base.ended_at)) [
        | inl over' ↦ rw over' refl
        | inr running ↦
            let saved = save_end repository d now s (others 0) base v read running (rely 0) in
            let finish' =
              saved_end-IsLeft d now publish_error ended t over others r saved.0.valid in
            rw running (elim meets [
              | inl before ↦
                  let (lost, kept) =
                    save-IsLeft d now publish_error ended t over s p base v read running
                      (rely 0 s v) (left s₁ p before (inr there)) in
                  let later = rely 1 r.0 saved.0.valid in
                  finish' lost rely (
                    left (others 1 r.0) (others 2 (others 1 r.0))
                      (rely 2 (others 1 r.0) later.valid) (left r.0 (others 1 r.0) later kept))
              | inr (base', read', lost, before) ↦
                  let same = some_eq base' base (sym read' ∙ read) in
                  let r' = λ (b : Conversation J). save (ended_conversation now d.end_reason b) p in
                  finish' (ap (λ b. (r' b).1) (sym same) ∙ lost) rely (
                    left s₁ (others 2 (others 1 r.0))
                      (subst (λ b. Evolves repository k s₁ (others 2 (others 1 (r' b).0))) same
                        before)
                      (inr there))
            ])
      ]

  -- An end that has sent anything is the only one. Whatever other requests do meanwhile, another end of
  -- the conversation sends nothing, whether it begins later, or has begun and read the conversation before
  -- and comes to its first save later, or has lost its first save to others and comes to its second save
  -- later. So no capacity is released twice, and no usage is recorded twice.
  pub end_conversation_once :
      (c d : EndConversationCommand) (now then' : ℕ) (publish_error publish_error' : Option String)
      (others others' : ℕ → State → State) (s s' : State)
      → key c.tenant_id c.conversation_id ≡ key d.tenant_id d.conversation_id
      → IsValid s
      → IsValid s'
      → ((n : ℕ) → Rely repository (key c.tenant_id c.conversation_id) (others n))
      → ((n : ℕ) → Rely repository (key d.tenant_id d.conversation_id) (others' n))
      → (end_conversation repository c now publish_error others s).2 ≢ []
      → Overlaps d then' others' s' (end_conversation repository c now publish_error others s).0
      → (end_conversation repository d then' publish_error' others' s').2 ≡ []
  unfolding end_conversation find_by_id
  end_conversation_once c d now then' publish_error publish_error' others others' s s' same v v'
        rely rely' sent meets =
      elim ((end_conversation_lem repository c now publish_error others s v rely).1) [
        | inl nothing ↦ absurd (sent nothing)
        | inr (saved, there, over, effects) ↦
            read_end-Overlaps d then' publish_error' others' s'
              (end_conversation repository c now publish_error others s).0
              (stored (key d.tenant_id d.conversation_id) s') saved now over
              (subst
                (λ k.
                  stored k (end_conversation repository c now publish_error others s).0
                  ≡ some saved)
                same there)
              v' rely' meets refl
      ]
