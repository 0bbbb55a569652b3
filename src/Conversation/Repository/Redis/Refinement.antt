-- ===== src/Conversation/Repository/Redis/Refinement.antt =====
-- redis-conversation.repository.ts: its operations against the laws of the conversation store.
use ethixweb_ai_csr.Common.{
  ℕ, ◌≡◌, refl, sym, ap, ◌∙◌, ◌⊎◌, inl, inr, Bool, true, false, Bool-cases, ◌&&◌, [], ◌∷◌, Option,
  none, some, String, arith, eq_iff, str_eq, if◌then◌else◌, ◌==◌, decimal, decimal_injective,
  codes_eq, codes_eq_iff,
}
use ethixweb_ai_csr.Conversation.Records.{Conversation}
use ethixweb_ai_csr.Conversation.Repository.{Repository, own_key, next_version, swapped, or_else}
use ethixweb_ai_csr.Conversation.Repository.Redis.{
  HashRedis, Codec, text, json, cas_save_script, swap_at, parsed, stored, save, write, indexed,
  create, conversation_ttl_seconds, field_or, call_index_key,
}
use ethixweb_ai_csr.Conversation.Repository.Evolution.{some_eq, some_ne_none}

codes_eq-decimal : (m n : ℕ) → codes_eq (decimal m) (decimal n) ≡ (m == n)
codes_eq-decimal m n = ground (arith, codes_eq_iff (decimal m) (decimal n), decimal_injective m n)

module _ {D : Type 0} (redis : HashRedis D) {J : Type 0} (codec : Codec J D) where
  open redis use {State, hget}

  -- Under a key there is nothing, or a conversation with its version beside it.
  abbrev pub Holds : String → Option (Conversation J) → State → Type 0
  Holds k none s = (hget k "data" s ≡ none) × (hget k "version" s ≡ none)
  Holds k (some c) s =
      (hget k "data" s ≡ some (json (codec.stringify c)))
      × (hget k "version" s ≡ some (text (decimal c.version)))
      × (own_key c ≡ k)

  pub record IsConsistent (s : State) : Type 0 where
    pub held : (k : String) → (o : Option (Conversation J)) × Holds k o s

  Holds-stored :
      (k : String) (o : Option (Conversation J)) (s : State)
      → Holds k o s
      → stored redis codec k s ≡ o
  unfolding stored parsed
  Holds-stored k none s h = rw h.0 refl
  Holds-stored k (some c) s h = rw h.0 (ap some (codec.parse-stringify c))

  -- Writing both fields, as `write` and the script do.
  abbrev pub written : Conversation J → State → State
  written c s = redis.expire (own_key c) conversation_ttl_seconds (
      redis.hset (own_key c)
        (("version", text (decimal c.version)) ∷ ("data", json (codec.stringify c)) ∷ []) s)

  hget-written :
      (c : Conversation J) (other field : String) (s : State)
      → hget other field (written c s) ≡ (
          if str_eq (own_key c) other
          then field_or
              (("version", text (decimal c.version)) ∷ ("data", json (codec.stringify c)) ∷ [])
              field
              (hget other field s)
          else hget other field s)
  hget-written c other field s =
      redis.hget-expire (own_key c) conversation_ttl_seconds other field
        (redis.hset (own_key c)
          (("version", text (decimal c.version)) ∷ ("data", json (codec.stringify c)) ∷ []) s)
        (omega arith)
      ∙ redis.hget-hset (own_key c)
          (("version", text (decimal c.version)) ∷ ("data", json (codec.stringify c)) ∷ []) other
          field s

  Holds-same :
      (k : String) (o : Option (Conversation J)) (s s' : State)
      → hget k "data" s' ≡ hget k "data" s
      → hget k "version" s' ≡ hget k "version" s
      → Holds k o s
      → Holds k o s'
  Holds-same k none s s' d v h = (d ∙ h.0, v ∙ h.1)
  Holds-same k (some c) s s' d v h = (d ∙ h.0, v ∙ h.1, h.2)

  Holds-written :
      (c : Conversation J) (k : String) (o : Option (Conversation J)) (s : State)
      → Holds k o s
      → Holds k (if str_eq (own_key c) k then some c else o) (written c s)
  Holds-written c k o s h = elim (Bool-cases (str_eq (own_key c) k)) [
    | inl mine ↦ rw mine (
      hget-written c k "data" s ∙ rw mine refl,
      hget-written c k "version" s ∙ rw mine refl,
      (eq_iff (own_key c) k).0 mine,
    )
    | inr other ↦ rw other (
        Holds-same k o s (written c s) (hget-written c k "data" s ∙ rw other refl)
          (hget-written c k "version" s ∙ rw other refl) h)
  ]

  IsConsistent-written :
      (c : Conversation J) (s : State) → IsConsistent s → IsConsistent (written c s)
  IsConsistent-written c s v = record {
    held = λ k.
        let (o, h) = v.held k in
        (if str_eq (own_key c) k then some c else o, Holds-written c k o s h);
  }

  stored-written :
      (k : String) (c : Conversation J) (s : State)
      → IsConsistent s
      → stored redis codec k (written c s)
        ≡ (if str_eq (own_key c) k then some c else stored redis codec k s)
  stored-written k c s v =
      let (o, h) = v.held k in
      Holds-stored k (if str_eq (own_key c) k then some c else o) (written c s)
        (Holds-written c k o s h)
      ∙ ap (λ x. if str_eq (own_key c) k then some c else x) (sym (Holds-stored k o s h))

  Holds-own :
      (k : String) (s : State) (c : Conversation J) (o : Option (Conversation J))
      → Holds k o s
      → stored redis codec k s ≡ some c
      → own_key c ≡ k
  Holds-own k s c none h e = absurd (some_ne_none c (sym e ∙ Holds-stored k none s h))
  Holds-own k s c (some r) h e =
      ap own_key (some_eq c r (sym e ∙ Holds-stored k (some r) s h)) ∙ h.2

  pub stored_own_lem :
      (k : String) (s : State) (c : Conversation J)
      → IsConsistent s
      → stored redis codec k s ≡ some c
      → own_key c ≡ k
  stored_own_lem k s c v e = Holds-own k s c (v.held k).0 (v.held k).1 e

  -- A save writes the next version if the version that it has read is still there.
  pub save_lem :
      (c : Conversation J) (o : Option (Conversation J)) (s : State)
      → Holds (own_key c) o s
      → ((swapped o c ≡ none) × (save redis codec c s ≡ (s, none)))
        ⊎ ((swapped o c ≡ some (next_version c))
            × (save redis codec c s ≡ (written (next_version c) s, some (next_version c))))
  unfolding save cas_save_script swap_at next_version
  save_lem c none s h = inl (refl, rw h.1 refl)
  save_lem c (some r) s h = elim (Bool-cases (r.version == c.version)) [
    | inl same ↦ inr (rw same refl, rw (h.1, codes_eq-decimal r.version c.version, same) refl)
    | inr other ↦ inl (rw other refl, rw (h.1, codes_eq-decimal r.version c.version, other) refl)
  ]

  pub save_swaps_lem :
      (c : Conversation J) (s : State)
      → IsConsistent s
      → (save redis codec c s).1 ≡ swapped (stored redis codec (own_key c) s) c
  save_swaps_lem c s v =
      let (o, h) = v.held (own_key c) in
      let here = Holds-stored (own_key c) o s h in
      elim (save_lem c o s h) [
        | inl (lost, e) ↦ ap (λ r. r.1) e ∙ sym (rw here lost)
        | inr (saved, e) ↦ ap (λ r. r.1) e ∙ sym (rw here saved)
      ]

  pub stored-save_lem :
      (k : String) (c : Conversation J) (s : State)
      → IsConsistent s
      → stored redis codec k (save redis codec c s).0 ≡ (
          if str_eq (own_key c) k
          then or_else (save redis codec c s).1 (stored redis codec k s)
          else stored redis codec k s)
  unfolding next_version
  stored-save_lem k c s v =
      let (o, h) = v.held (own_key c) in
      elim (save_lem c o s h) [
        | inl (lost, e) ↦ rw e (ground arith)
        | inr (saved, e) ↦ rw e (stored-written k (next_version c) s v)
      ]

  pub save-IsConsistent :
      (c : Conversation J) (s : State) → IsConsistent s → IsConsistent (save redis codec c s).0
  save-IsConsistent c s v =
      let (o, h) = v.held (own_key c) in
      elim (save_lem c o s h) [
        | inl (lost, e) ↦ rw e v
        | inr (saved, e) ↦ rw e (IsConsistent-written (next_version c) s v)
      ]

  -- The reservation of the index leaves the conversations alone.
  abbrev reserved : Conversation J → State → State × Bool
  reserved c s = redis.set_nx (call_index_key c.tenant_id c.call_id) c.id conversation_ttl_seconds s

  reserved-Holds :
      (c : Conversation J) (k : String) (o : Option (Conversation J)) (s : State)
      → Holds k o s
      → Holds k o (reserved c s).0
  reserved-Holds c k o s h =
      Holds-same k o s (reserved c s).0
        (redis.hget-set_nx (call_index_key c.tenant_id c.call_id) c.id conversation_ttl_seconds k
          "data" s)
        (redis.hget-set_nx (call_index_key c.tenant_id c.call_id) c.id conversation_ttl_seconds k
          "version" s)
        h

  reserved-IsConsistent :
      (c : Conversation J) (s : State) → IsConsistent s → IsConsistent (reserved c s).0
  reserved-IsConsistent c s v = record {
    held = λ k. let (o, h) = v.held k in (o, reserved-Holds c k o s h);
  }

  stored-reserved :
      (k : String) (c : Conversation J) (s : State)
      → IsConsistent s
      → stored redis codec k (reserved c s).0 ≡ stored redis codec k s
  stored-reserved k c s v =
      let (o, h) = v.held k in
      Holds-stored k o (reserved c s).0 (reserved-Holds c k o s h) ∙ sym (Holds-stored k o s h)

  create_cases :
      (c : Conversation J) (s : State)
      → (((reserved c s).1 ≡ true) × (create redis codec c s ≡ (written c (reserved c s).0, true)))
        ⊎ (((reserved c s).1 ≡ false) × (create redis codec c s ≡ ((reserved c s).0, false)))
  unfolding create write
  create_cases c s = elim (Bool-cases (reserved c s).1) [
    | inl free ↦ inl (free, rw free refl)
    | inr taken ↦ inr (taken, rw taken refl)
  ]

  pub create_once_lem :
      (c : Conversation J) (s : State)
      → IsConsistent s
      → (create redis codec c s).1
        ≡ (if indexed redis codec c.tenant_id c.call_id s then false else true)
  unfolding indexed
  create_once_lem c s v =
      let reserves =
        redis.set_nx_reserves (call_index_key c.tenant_id c.call_id) c.id conversation_ttl_seconds
          s in
      elim (create_cases c s) [
        | inl (free, e) ↦ ap (λ r. r.1) e ∙ sym free ∙ reserves ∙ ground arith
        | inr (taken, e) ↦ ap (λ r. r.1) e ∙ sym taken ∙ reserves ∙ ground arith
      ]

  pub stored-create_lem :
      (k : String) (c : Conversation J) (s : State)
      → IsConsistent s
      → stored redis codec k (create redis codec c s).0 ≡ (
          if (create redis codec c s).1 && str_eq (own_key c) k
          then some c
          else stored redis codec k s)
  stored-create_lem k c s v = elim (create_cases c s) [
    | inl (free, e) ↦ rw e (
        stored-written k c (reserved c s).0 (reserved-IsConsistent c s v)
        ∙ ap (λ x. if str_eq (own_key c) k then some c else x) (stored-reserved k c s v))
    | inr (taken, e) ↦ rw e (stored-reserved k c s v)
  ]

  pub create-IsConsistent :
      (c : Conversation J) (s : State) → IsConsistent s → IsConsistent (create redis codec c s).0
  create-IsConsistent c s v = elim (create_cases c s) [
    | inl (free, e) ↦ rw e (IsConsistent-written c (reserved c s).0 (reserved-IsConsistent c s v))
    | inr (taken, e) ↦ rw e (reserved-IsConsistent c s v)
  ]

  -- The repository on Redis.
  abbrev pub redis_repository : Repository J
  redis_repository = record {
    State = State;
    IsValid = IsConsistent;
    stored = stored redis codec;
    indexed = indexed redis codec;
    create = create redis codec;
    save = save redis codec;
    stored_own = stored_own_lem;
    save_swaps = save_swaps_lem;
    stored-save = stored-save_lem;
    save-IsValid = save-IsConsistent;
    create_once = create_once_lem;
    stored-create = stored-create_lem;
    create-IsValid = create-IsConsistent;
  }
