-- ===== src/Capacity/Admission/Ceilings.antt =====
-- redis-call-admission.adapter.ts: what `reserve` answers, and how many calls can be live.
use ethixweb_ai_csr.Common.{
  ℕ, ◌+◌, ◌≤◌, ◌<◌, ◌≡◌, ap, ◌⊎◌, inl, inr, dec_le, false, String, arith, eq_iff, str_eq, insert,
  length, length-insert,
}
use ethixweb_ai_csr.Capacity.SortedSets.{SortedSets, unexpired}
use ethixweb_ai_csr.Capacity.Admission.{
  tenant_key, global_key, global_member, reservation_ttl_ms, Limits, tenant_ceiling, granted,
  capacity_exceeded_tenant, capacity_exceeded_global, reserve_script, reserve,
}
use ethixweb_ai_csr.Capacity.Admission.Keys.{
  tenant_key_ne_global, global_ne_tenant_key, tenant_key-str_eq,
}

module _ (redis : SortedSets) where
  open redis use {State, members, zremrangebyscore, zcard, zadd, expire}

  -- The live calls of a set at a time.
  abbrev pub live : String → ℕ → State → ℕ
  live key now s = length (unexpired now (members key s))

  -- The two answers that refuse leave each set with its unexpired members.
  pub record Purged (tenant_id : String) (now : ℕ) (s s' : State) : Type 0 where
    pub tenant_purged :
        members (tenant_key tenant_id) s' ≡ unexpired now (members (tenant_key tenant_id) s)
    pub global_purged : members global_key s' ≡ unexpired now (members global_key s)

  unfoldable pub purge : String → ℕ → State → State
  purge tenant_id now s =
      zremrangebyscore global_key now (zremrangebyscore (tenant_key tenant_id) now s)

  pub purge-Purged :
      (tenant_id : String) (now : ℕ) (s : State) → Purged tenant_id now s (purge tenant_id now s)
  unfolding purge
  purge-Purged t now s = ground (
    arith,
    redis.zremrangebyscore_drops global_key (tenant_key t) now
        (zremrangebyscore (tenant_key t) now s),
    redis.zremrangebyscore_drops global_key global_key now (zremrangebyscore (tenant_key t) now s),
    redis.zremrangebyscore_drops (tenant_key t) (tenant_key t) now s,
    redis.zremrangebyscore_drops (tenant_key t) global_key now s,
    tenant_key_ne_global t,
    global_ne_tenant_key t,
    eq_iff (tenant_key t) (tenant_key t),
    eq_iff global_key global_key,
  )

  enter : String → String → String → ℕ → ℕ → State → State
  enter tenant_id member global_member expires_at seconds s = expire global_key seconds (
      zadd global_key expires_at global_member
        (expire (tenant_key tenant_id) seconds (zadd (tenant_key tenant_id) expires_at member s)))

  enter_lem :
      (t m g : String) (expires_at seconds : ℕ) (s : State)
      → (members (tenant_key t) (enter t m g expires_at seconds s)
          ≡ insert m expires_at (members (tenant_key t) s))
        × (members global_key (enter t m g expires_at seconds s)
            ≡ insert g expires_at (members global_key s))
  unfolding enter
  enter_lem t m g x secs s =
      let s₁ = zadd (tenant_key t) x m s in
      let s₂ = expire (tenant_key t) secs s₁ in
      let s₃ = zadd global_key x g s₂ in
      let same = eq_iff (tenant_key t) (tenant_key t) in
      let same' = eq_iff global_key global_key in
      (
        ground (
          arith,
          redis.expire_keeps global_key (tenant_key t) secs s₃,
          redis.zadd_inserts global_key (tenant_key t) x g s₂,
          redis.expire_keeps (tenant_key t) (tenant_key t) secs s₁,
          redis.zadd_inserts (tenant_key t) (tenant_key t) x m s,
          global_ne_tenant_key t,
          same,
        ),
        ground (
          arith,
          redis.expire_keeps global_key global_key secs s₃,
          redis.zadd_inserts global_key global_key x g s₂,
          redis.expire_keeps (tenant_key t) global_key secs s₁,
          redis.zadd_inserts (tenant_key t) global_key x m s,
          tenant_key_ne_global t,
          same',
        ),
      )

  -- The branches of `reserve`, by the live calls at its time.
  pub reserve_lem :
      (tenant_id id : String) (limits : Limits) (now : ℕ) (s : State)
      → let (s', r) = reserve redis tenant_id id limits now s in
        let key = tenant_key tenant_id in
        let expires_at = now + reservation_ttl_ms in
        (tenant_ceiling limits ≤ live key now s
          → (r ≡ capacity_exceeded_tenant tenant_id) × Purged tenant_id now s s')
        × (live key now s < tenant_ceiling limits
            → limits.max_global_concurrent_calls ≤ live global_key now s
            → (r ≡ capacity_exceeded_global tenant_id) × Purged tenant_id now s s')
        × (live key now s < tenant_ceiling limits
            → live global_key now s < limits.max_global_concurrent_calls
            → (r ≡ granted id)
              × (members key s' ≡ insert id expires_at (unexpired now (members key s)))
              × (members global_key s'
                  ≡ insert
                      (global_member tenant_id id)
                      expires_at
                      (unexpired now (members global_key s)))
              × (length (members key s') ≤ tenant_ceiling limits)
              × (length (members global_key s') ≤ limits.max_global_concurrent_calls))
  unfolding reserve reserve_script purge enter
  reserve_lem t id limits now s =
      let s₂ = purge t now s in
      let p = purge-Purged t now s in
      let tenant_count : (zcard (tenant_key t) s₂ ≡ live (tenant_key t) now s) =
        rw (redis.zcard_counts (tenant_key t) s₂) (ap length p.tenant_purged) in
      let global_count : (zcard global_key s₂ ≡ live global_key now s) =
        rw (redis.zcard_counts global_key s₂) (ap length p.global_purged) in
      let expires_at = now + reservation_ttl_ms in
      let adds = length-insert id expires_at (unexpired now (members (tenant_key t) s)) in
      let adds' =
        length-insert (global_member t id) expires_at (unexpired now (members global_key s)) in
      let entered = enter_lem t id (global_member t id) expires_at 5400 s₂ in
      (
        λ full. (ground (arith, tenant_count), ground (arith, tenant_count, p)),
        λ room full. (
          ground (arith, tenant_count, global_count),
          ground (arith, tenant_count, global_count, p),
        ),
        λ room room'. (
          ground (arith, tenant_count, global_count),
          ground (arith, tenant_count, global_count, p, entered),
          ground (arith, tenant_count, global_count, p, entered),
          ground (arith, tenant_count, global_count, p, entered, adds),
          ground (arith, tenant_count, global_count, p, entered, adds'),
        ),
      )

  -- `reserve` refuses a call exactly when the tenant's live calls have reached its ceiling, or else
  -- all live calls have reached the global one, and adds nothing then; otherwise it grants the call,
  -- enters it into both sets until its time to live ends, and neither set then exceeds its ceiling.
  -- The ceiling is the one below the headroom unless the call has emergency priority.
  pub reserve_decides :
      (tenant_id id : String) (limits : Limits) (now : ℕ) (s : State)
      → let (s', r) = reserve redis tenant_id id limits now s in
        let key = tenant_key tenant_id in
        let expires_at = now + reservation_ttl_ms in
        ((tenant_ceiling limits ≤ live key now s)
          × (r ≡ capacity_exceeded_tenant tenant_id)
          × Purged tenant_id now s s')
        ⊎ (((live key now s < tenant_ceiling limits)
              × (limits.max_global_concurrent_calls ≤ live global_key now s)
              × (r ≡ capacity_exceeded_global tenant_id)
              × Purged tenant_id now s s')
            ⊎ ((live key now s < tenant_ceiling limits)
                × (live global_key now s < limits.max_global_concurrent_calls)
                × (r ≡ granted id)
                × (members key s' ≡ insert id expires_at (unexpired now (members key s)))
                × (members global_key s'
                    ≡ insert
                        (global_member tenant_id id)
                        expires_at
                        (unexpired now (members global_key s)))
                × (length (members key s') ≤ tenant_ceiling limits)
                × (length (members global_key s') ≤ limits.max_global_concurrent_calls)))
  reserve_decides t id limits now s =
      let (full, full', room) = reserve_lem t id limits now s in
      elim (dec_le (tenant_ceiling limits) (live (tenant_key t) now s)) [
        | yes h ↦ inl (h, (full h).0, (full h).1)
        | no h ↦ elim (dec_le limits.max_global_concurrent_calls (live global_key now s)) [
          | yes h' ↦
              inr (inl (omega arith, h', (full' (omega arith) h').0, (full' (omega arith) h').1))
          | no h' ↦
              let (r, adds, adds', within, within') = room (omega arith) (omega arith) in
              inr (inr (omega arith, omega arith, r, adds, adds', within, within'))
        ]
      ]

  pub purge_other :
      (t u : String) (now : ℕ) (s : State)
      → str_eq t u ≡ false
      → members (tenant_key u) (purge t now s) ≡ members (tenant_key u) s
  unfolding purge
  purge_other t u now s ne = ground (
    arith,
    ne,
    redis.zremrangebyscore_drops global_key (tenant_key u) now
        (redis.zremrangebyscore (tenant_key t) now s),
    redis.zremrangebyscore_drops (tenant_key t) (tenant_key u) now s,
    tenant_key-str_eq t u,
    global_ne_tenant_key u,
  )

  enter_other :
      (t u m g : String) (expires_at seconds : ℕ) (s : State)
      → str_eq t u ≡ false
      → members (tenant_key u) (enter t m g expires_at seconds s) ≡ members (tenant_key u) s
  unfolding enter
  enter_other t u m g x secs s ne =
      let s₁ = zadd (tenant_key t) x m s in
      let s₂ = expire (tenant_key t) secs s₁ in
      let s₃ = zadd global_key x g s₂ in
      ground (
        arith,
        ne,
        redis.expire_keeps global_key (tenant_key u) secs s₃,
        redis.zadd_inserts global_key (tenant_key u) x g s₂,
        redis.expire_keeps (tenant_key t) (tenant_key u) secs s₁,
        redis.zadd_inserts (tenant_key t) (tenant_key u) x m s,
        global_ne_tenant_key u,
        tenant_key-str_eq t u,
      )

  reserve_states :
      (t id : String) (limits : Limits) (now : ℕ) (s : State)
      → ((reserve redis t id limits now s).0 ≡ purge t now s)
        ⊎ ((reserve redis t id limits now s).0
            ≡ enter t id (global_member t id) (now + reservation_ttl_ms) 5400 (purge t now s))
  unfolding reserve reserve_script purge enter
  reserve_states t id limits now s = ground arith

  -- A reservation of one tenant leaves the sets of all others alone.
  pub reserve_other :
      (t u id : String) (limits : Limits) (now : ℕ) (s : State)
      → str_eq t u ≡ false
      → members (tenant_key u) (reserve redis t id limits now s).0 ≡ members (tenant_key u) s
  reserve_other t u id limits now s ne = ground (
    arith,
    reserve_states t id limits now s,
    purge_other t u now s ne,
    enter_other t u id (global_member t id) (now + reservation_ttl_ms) 5400 (purge t now s) ne,
  )
