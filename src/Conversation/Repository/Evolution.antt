-- ===== src/Conversation/Repository/Evolution.antt =====
-- What the requests of a call can do to its conversation, whatever their order: a stored conversation is
-- kept, or changed while it has not ended, with a greater version and its transcript continued.
use mathlib.Core.List.{append_assoc}
use mathlib.Core.Logic.{◌≢◌}
use ethixweb_ai_csr.Common.{
  ◌<◌, ◌≡◌, refl, sym, ap, subst, ◌∙◌, ◌⊎◌, inl, inr, Bool-cases, List, ◌++◌, none, some,
  Option-cases, String, arith, eq_iff, str_eq,
}
use ethixweb_ai_csr.Conversation.Records.{Conversation, TranscriptTurn}
use ethixweb_ai_csr.Conversation.Repository.{Repository, own_key, swapped, or_else, next_version}

module _ {J : Type 0} where
  -- The call that a conversation is of, and what was reserved for it.
  abbrev pub SameCall : Conversation J → Conversation J → Type 0
  SameCall r r' =
      (r'.id ≡ r.id)
      × (r'.tenant_id ≡ r.tenant_id)
      × (r'.business_id ≡ r.business_id)
      × (r'.call_id ≡ r.call_id)
      × (r'.capacity_reservation_id ≡ r.capacity_reservation_id)
      × (r'.started_at ≡ r.started_at)

  -- What a request may make of a conversation that it has read, before it is saved.
  pub record Change (base c : Conversation J) : Type 0 where
    pub version : c.version ≡ base.version
    pub running : base.ended_at ≡ none
    pub continued : (more : List (TranscriptTurn J)) × (c.transcript ≡ base.transcript ++ more)
    pub same : SameCall base c

  pub record Newer (r r' : Conversation J) : Type 0 where
    pub newer : r.version < r'.version
    pub running : r.ended_at ≡ none
    pub continued : (more : List (TranscriptTurn J)) × (r'.transcript ≡ r.transcript ++ more)
    pub same : SameCall r r'

  abbrev pub Follows : Conversation J → Conversation J → Type 0
  Follows r r' = (r' ≡ r) ⊎ Newer r r'

  SameCall-trans : (a b c : Conversation J) → SameCall a b → SameCall b c → SameCall a c
  SameCall-trans a b c p q = (q.0 ∙ p.0, q.1 ∙ p.1, q.2 ∙ p.2, q.3 ∙ p.3, q.4 ∙ p.4, q.5 ∙ p.5)

  Newer-trans : (a b c : Conversation J) → Newer a b → Newer b c → Newer a c
  Newer-trans a b c p q =
      let (m, e) = p.continued in
      let (n, e') = q.continued in
      record {
        newer = omega (arith, p.newer, q.newer);
        running = p.running;
        continued = (m ++ n, simp (e', e, append_assoc));
        same = SameCall-trans a b c p.same q.same;
      }

  Follows-trans : (a b c : Conversation J) → Follows a b → Follows b c → Follows a c
  Follows-trans a b c (inl e) q = subst (λ x. Follows x c) e q
  Follows-trans a b c (inr p) (inl e) = inr (subst (λ x. Newer a x) (sym e) p)
  Follows-trans a b c (inr p) (inr q) = inr (Newer-trans a b c p q)

  pub Change-Newer : (base c : Conversation J) → Change base c → Newer base (next_version c)
  unfolding next_version
  Change-Newer base c h = record {
    newer = omega (arith, h.version);
    running = h.running;
    continued = h.continued;
    same = h.same;
  }

  own_key-SameCall : (r r' : Conversation J) → SameCall r r' → own_key r' ≡ own_key r
  own_key-SameCall r r' h = rw (h.0, h.1) refl

  pub some_ne_none : (r : Conversation J) → some r ≢ none
  some_ne_none r e = cc

  pub some_eq : (r r' : Conversation J) → some r ≡ some r' → r ≡ r'
  some_eq r r' e = cc

  swapped-same :
      (r c : Conversation J) → c.version ≡ r.version → swapped (some r) c ≡ some (next_version c)
  swapped-same r c e = ground arith

  swapped-newer : (r c : Conversation J) → c.version < r.version → swapped (some r) c ≡ none
  swapped-newer r c lt = ground arith

module _ {J : Type 0} (repository : Repository J) where
  open repository use {State, IsValid, stored, save}

  -- From one state to a later one, for the conversation under a key. It may also have expired.
  pub record Evolves (k : String) (s s' : State) : Type 0 where
    pub valid : IsValid s'
    pub absent : stored k s ≡ none → stored k s' ≡ none
    pub later :
        (r : Conversation J)
        → stored k s ≡ some r
        → (stored k s' ≡ none) ⊎ ((r' : Conversation J) × (stored k s' ≡ some r') × Follows r r')

  pub Evolves-refl : (k : String) (s : State) → IsValid s → Evolves k s s
  Evolves-refl k s v = record { valid = v; absent = λ e. e; later = λ r e. inr (r, e, inl refl) }

  pub Evolves-trans : (k : String) (s t u : State) → Evolves k s t → Evolves k t u → Evolves k s u
  Evolves-trans k s t u p q = record {
    valid = q.valid;
    absent = λ e. q.absent (p.absent e);
    later = λ r e. elim (p.later r e) [
      | inl gone ↦ inl (q.absent gone)
      | inr (r', e', f) ↦ elim (q.later r' e') [
        | inl gone ↦ inl gone
        | inr (r'', e'', g) ↦ inr (r'', e'', Follows-trans r r' r'' f g)
      ]
    ];
  }

  stored-save_own :
      (k : String) (c : Conversation J) (s : State)
      → IsValid s
      → own_key c ≡ k
      → stored k (save c s).0 ≡ or_else (swapped (stored k s) c) (stored k s)
  stored-save_own k c s v own =
      repository.stored-save k c s v
      ∙ rw (own, (eq_iff k k).1 refl, repository.save_swaps c s v, own) refl

  -- A save of what was read and changed, whatever has happened since the read: it stores the change, or
  -- is lost and changes nothing.
  pub save_cases :
      (k : String) (s s' : State) (base c : Conversation J)
      → stored k s ≡ some base
      → own_key base ≡ k
      → Change base c
      → Evolves k s s'
      → (((save c s').1 ≡ none) × (stored k (save c s').0 ≡ stored k s'))
        ⊎ (((save c s').1 ≡ some (next_version c))
            × (stored k s' ≡ some base)
            × (stored k (save c s').0 ≡ some (next_version c)))
  save_cases k s s' base c read own change rely =
      let own' = own_key-SameCall base c change.same ∙ own in
      let swaps = repository.save_swaps c s' rely.valid ∙ ap (λ x. swapped (stored x s') c) own' in
      let after = stored-save_own k c s' rely.valid own' in
      elim (Option-cases (stored k s')) [
        | inl gone ↦ inl (swaps ∙ rw gone refl, after ∙ rw gone refl)
        | inr (r, there) ↦ elim (rely.later base read) [
          | inl gone ↦ absurd (some_ne_none r (sym there ∙ gone))
          | inr (r', there', inl same) ↦
              let found = there' ∙ ap some same in
              inr (
                swaps ∙ rw found (swapped-same base c change.version),
                found,
                after
                    ∙ rw found
                        (ap (λ o. or_else o (some base)) (swapped-same base c change.version)),
              )
          | inr (r', there', inr newer) ↦
              let lost = swapped-newer r' c (omega (arith, newer.newer, change.version)) in
              inl (swaps ∙ rw there' lost, after ∙ rw there' (ap (λ o. or_else o (some r')) lost))
        ]
      ]

  -- A save is lost only if what was read is no longer stored.
  pub save_lost :
      (k : String) (s' : State) (base c : Conversation J)
      → IsValid s'
      → own_key base ≡ k
      → Change base c
      → (save c s').1 ≡ none
      → stored k s' ≢ some base
  save_lost k s' base c v own change lost there =
      let own' = own_key-SameCall base c change.same ∙ own in
      some_ne_none (next_version c) (
        sym (
          repository.save_swaps c s' v
          ∙ ap (λ x. swapped (stored x s') c) own'
          ∙ rw there (swapped-same base c change.version))
        ∙ lost)

  pub save-Evolves :
      (k : String) (s s' : State) (base c : Conversation J)
      → stored k s ≡ some base
      → own_key base ≡ k
      → Change base c
      → Evolves k s s'
      → Evolves k s' (save c s').0
  save-Evolves k s s' base c read own change rely =
      let valid = repository.save-IsValid c s' rely.valid in
      elim (save_cases k s s' base c read own change rely) [
        | inl (lost, kept) ↦ record {
          valid = valid;
          absent = λ e. kept ∙ e;
          later = λ r e. inr (r, kept ∙ e, inl refl);
        }
        | inr (saved, there, after) ↦ record {
          valid = valid;
          absent = λ e. absurd (some_ne_none base (sym there ∙ e));
          later = λ r e. inr (
            next_version c,
            after,
            inr (
                subst (λ x. Newer x (next_version c)) (some_eq base r (sym there ∙ e))
                  (Change-Newer base c change)),
          );
        }
      ]

  -- So too for the conversation under any key, that of the save or another.
  pub save_step :
      (k : String) (s s' : State) (base c : Conversation J) {own : String}
      → IsValid s
      → stored own s ≡ some base
      → Change base c
      → Evolves k s s'
      → Evolves k s' (save c s').0
  save_step k s s' base c {own} v read change rely =
      let mine = repository.stored_own own s base v read in
      elim (Bool-cases (str_eq own k)) [
        | inl same ↦
            let e = (eq_iff own k).0 same in
            save-Evolves k s s' base c (subst (λ x. stored x s ≡ some base) e read) (mine ∙ e)
              change rely
        | inr other ↦
            let kept : stored k (save c s').0 ≡ stored k s' =
              repository.stored-save k c s' rely.valid
              ∙ rw (own_key-SameCall base c change.same ∙ mine) (rw other refl) in
            record {
              valid = repository.save-IsValid c s' rely.valid;
              absent = λ e. kept ∙ e;
              later = λ r e. inr (r, kept ∙ e, inl refl);
            }
      ]
