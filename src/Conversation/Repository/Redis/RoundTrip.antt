-- ===== src/Conversation/Repository/Redis/RoundTrip.antt =====
-- redis-conversation.repository.ts: what is read of a conversation that has been written.
use ethixweb_ai_csr.Common.{
  ◌≡◌, refl, ◌∙◌, ◌⊎◌, inl, inr, true, false, none, some, String, arith, eq_iff, str_eq,
}
use ethixweb_ai_csr.Conversation.Records.{Conversation}
use ethixweb_ai_csr.Conversation.Repository.{key, own_key, next_version, swapped, find_by_id}
use ethixweb_ai_csr.Conversation.Repository.Redis.{HashRedis, Codec, save, create}
use ethixweb_ai_csr.Conversation.Repository.Redis.Refinement.{
  IsConsistent, redis_repository, stored-create_lem, save_swaps_lem, save_lem, stored-save_lem,
  create-IsConsistent, save-IsConsistent,
}

module _ {D : Type 0} (redis : HashRedis D) {J : Type 0} (codec : Codec J D) where
  open redis use {State}

  -- On Redis, a conversation that is created is found again. A save succeeds exactly where the version
  -- that it has read is still stored; then the next version is found, else nothing has changed. Neither
  -- touches any other conversation, and both keep the two fields of every hash consistent.
  pub redis_roundtrip :
      (c : Conversation J) (s : State)
      → IsConsistent redis codec s
      → let find = find_by_id (redis_repository redis codec) in
        let created = create redis codec c s in
        let saved = save redis codec c s in
        (created.1 ≡ true → find c.tenant_id c.id created.0 ≡ some c)
        × ((saved.1 ≡ swapped (find c.tenant_id c.id s) c)
            × ((saved ≡ (s, none)) ⊎ (find c.tenant_id c.id saved.0 ≡ some (next_version c)))
            × ((tenant_id id : String)
                → str_eq (own_key c) (key tenant_id id) ≡ false
                → (find tenant_id id created.0 ≡ find tenant_id id s)
                  × (find tenant_id id saved.0 ≡ find tenant_id id s))
            × IsConsistent redis codec created.0
            × IsConsistent redis codec saved.0)
  unfolding find_by_id
  redis_roundtrip c s v =
      let k = own_key c in
      let mine = (eq_iff k k).1 refl in
      (
        λ free. stored-create_lem redis codec k c s v ∙ rw (free, mine) refl,
        (
          save_swaps_lem redis codec c s v,
          (let (o, h) = v.held k in
              elim (save_lem redis codec c o s h) [
                | inl (lost, e) ↦ inl e
                | inr (saved, e) ↦ inr (stored-save_lem redis codec k c s v ∙ rw (mine, e) refl)
              ]),
          λ tenant_id id other. (
            stored-create_lem redis codec (key tenant_id id) c s v ∙ ground (arith, other),
            stored-save_lem redis codec (key tenant_id id) c s v ∙ rw other refl,
          ),
          create-IsConsistent redis codec c s v,
          save-IsConsistent redis codec c s v,
        ),
      )
