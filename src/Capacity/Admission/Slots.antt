-- ===== src/Capacity/Admission/Slots.antt =====
-- redis-call-admission.adapter.ts over sequences of calls: the slots that are taken, and their
-- ages.
use ethixweb_ai_csr.Common.{
  ℕ, ◌+◌, ◌≤◌, inl, inr, List, [], ◌∷◌, String, arith, eq_iff, str_eq, length, All, Bool-cases,
  dec_le,
}
use ethixweb_ai_csr.Capacity.SortedSets.{SortedSets}
use ethixweb_ai_csr.Capacity.Admission.{
  tenant_key, global_key, global_member, reservation_ttl_ms, Limits, tenant_ceiling, reserve,
  release, release_script, get_active_counts, count_script,
}
use ethixweb_ai_csr.Capacity.Admission.Keys.{
  tenant_key_ne_global, global_ne_tenant_key, tenant_key-str_eq,
}
use ethixweb_ai_csr.Capacity.Admission.Ceilings.{
  live, reserve_lem, reserve_other, purge, purge-Purged, purge_other,
}
use ethixweb_ai_csr.Capacity.Admission.Touched.{
  Touched, kept, purged, removed, entered, Touched-length,
}

-- The operations of the port, with the random id of a reservation.
pub data Operation : Type 0 where
  reserves : String → String → Limits → Operation
  releases : String → String → Operation
  counts : String → Operation

module _ (redis : SortedSets) where
  open redis use {State, members}

  pub apply : ℕ × Operation → State → State
  apply (now, reserves tenant_id id limits) s = (reserve redis tenant_id id limits now s).0
  apply (now, releases tenant_id id) s = release redis tenant_id id s
  apply (now, counts tenant_id) s = (get_active_counts redis tenant_id now s).0

  unfoldable pub run : List (ℕ × Operation) → State → State
  run [] s = s
  run (op ∷ ops) s = run ops (apply op s)

  -- No reservation asks for more than `most` slots of a tenant, or `most_global` of all.
  abbrev pub Asks : ℕ → ℕ → ℕ × Operation → Type 0
  Asks most most_global (now, reserves tenant_id id limits) =
      (tenant_ceiling limits ≤ most) × (limits.max_global_concurrent_calls ≤ most_global)
  Asks most most_global (now, releases tenant_id id) = Unit {0}
  Asks most most_global (now, counts tenant_id) = Unit {0}

  -- What `reserve` does to the set of its tenant, and to the set of all calls.
  reserve-Touched_self :
      (t id : String) (limits : Limits) (most most_global now : ℕ) (s : State)
      → tenant_ceiling limits ≤ most
      → limits.max_global_concurrent_calls ≤ most_global
      → let s' = (reserve redis t id limits now s).0 in
        Touched now
          (now + reservation_ttl_ms)
          most
          (members (tenant_key t) s)
          (members (tenant_key t) s')
        × Touched now
            (now + reservation_ttl_ms)
            most_global
            (members global_key s)
            (members global_key s')
  reserve-Touched_self t id limits most most_global now s le le' =
      let (full, full', room) = reserve_lem redis t id limits now s in
      elim (dec_le (tenant_ceiling limits) (live redis (tenant_key t) now s)) [
        | yes h ↦ (purged (full h).1.tenant_purged, purged (full h).1.global_purged)
        | no h ↦ elim (dec_le limits.max_global_concurrent_calls (live redis global_key now s)) [
          | yes h' ↦
              let p = (full' (omega arith) h').1 in (purged p.tenant_purged, purged p.global_purged)
          | no h' ↦
              let (_, adds, adds', within, within') = room (omega arith) (omega arith) in
              (entered id adds (omega arith), entered (global_member t id) adds' (omega arith))
        ]
      ]

  reserve-Touched :
      (t id u : String) (limits : Limits) (most most_global now : ℕ) (s : State)
      → tenant_ceiling limits ≤ most
      → limits.max_global_concurrent_calls ≤ most_global
      → let s' = (reserve redis t id limits now s).0 in
        Touched now
          (now + reservation_ttl_ms)
          most
          (members (tenant_key u) s)
          (members (tenant_key u) s')
        × Touched now
            (now + reservation_ttl_ms)
            most_global
            (members global_key s)
            (members global_key s')
  reserve-Touched t id u limits most most_global now s le le' =
      let (own, all) = reserve-Touched_self t id limits most most_global now s le le' in
      elim (Bool-cases (str_eq t u)) [
        | inl same ↦ (rw (← (eq_iff t u).0 same) own, all)
        | inr differ ↦ (kept (reserve_other redis t u id limits now s differ), all)
      ]

  release-Touched :
      (t id u : String) (expires_at most most_global now : ℕ) (s : State)
      → let s' = release redis t id s in
        Touched now expires_at most (members (tenant_key u) s) (members (tenant_key u) s')
        × Touched now expires_at most_global (members global_key s) (members global_key s')
  unfolding release release_script
  release-Touched t id u x most most_global now s =
      let s₁ = (redis.zrem (tenant_key t) id s).0 in
      (
        elim (Bool-cases (str_eq t u)) [
          | inl same ↦ removed id (
              ground (
                arith,
                redis.zrem_removes (tenant_key t) (tenant_key u) id s,
                redis.zrem_removes global_key (tenant_key u) (global_member t id) s₁,
                tenant_key-str_eq t u,
                global_ne_tenant_key u,
                same,
              ))
          | inr differ ↦ kept (
              ground (
                arith,
                redis.zrem_removes (tenant_key t) (tenant_key u) id s,
                redis.zrem_removes global_key (tenant_key u) (global_member t id) s₁,
                tenant_key-str_eq t u,
                global_ne_tenant_key u,
                differ,
              ))
        ],
        removed (global_member t id) (
            ground (
              arith,
              redis.zrem_removes (tenant_key t) global_key id s,
              redis.zrem_removes global_key global_key (global_member t id) s₁,
              tenant_key_ne_global t,
              eq_iff global_key global_key,
            )),
      )

  counts-Touched :
      (t u : String) (expires_at most most_global now : ℕ) (s : State)
      → let s' = (get_active_counts redis t now s).0 in
        Touched now expires_at most (members (tenant_key u) s) (members (tenant_key u) s')
        × Touched now expires_at most_global (members global_key s) (members global_key s')
  unfolding get_active_counts count_script purge
  counts-Touched t u x most most_global now s = (
    elim (Bool-cases (str_eq t u)) [
      | inl same ↦ purged (rw (← (eq_iff t u).0 same) (purge-Purged redis t now s).tenant_purged)
      | inr differ ↦ kept (purge_other redis t u now s differ)
    ],
    purged (purge-Purged redis t now s).global_purged,
  )

  pub apply-Touched :
      (u : String) (most most_global now : ℕ) (op : Operation) (s : State)
      → Asks most most_global (now, op)
      → let s' = apply (now, op) s in
        Touched now
          (now + reservation_ttl_ms)
          most
          (members (tenant_key u) s)
          (members (tenant_key u) s')
        × Touched now
            (now + reservation_ttl_ms)
            most_global
            (members global_key s)
            (members global_key s')
  unfolding apply
  apply-Touched u most most_global now (reserves t id limits) s asks =
      reserve-Touched t id u limits most most_global now s asks.0 asks.1
  apply-Touched u most most_global now (releases t id) s asks =
      release-Touched t id u (now + reservation_ttl_ms) most most_global now s
  apply-Touched u most most_global now (counts t) s asks =
      counts-Touched t u (now + reservation_ttl_ms) most most_global now s

  abbrev pub IsWithin : ℕ → ℕ → State → Type 0
  IsWithin most most_global s =
      ((u : String) → length (members (tenant_key u) s) ≤ most)
      × (length (members global_key s) ≤ most_global)

  -- Over any sequence of reservations, releases and reads, by any tenants and at any times, no tenant
  -- holds more slots than the highest ceiling asked for, and all together hold no more than the
  -- highest global one.
  pub run-IsWithin :
      (most most_global : ℕ) (ops : List (ℕ × Operation)) (s : State)
      → All (Asks most most_global) ops
      → IsWithin most most_global s
      → IsWithin most most_global (run ops s)
  unfolding run
  run-IsWithin most most_global [] s asks within = within
  run-IsWithin most most_global ((now, op) ∷ ops) s asks within =
      run-IsWithin most most_global ops (apply (now, op) s) asks.1 (
        λ u. Touched-length (apply-Touched u most most_global now op s asks.0).0 (within.0 u),
        Touched-length (apply-Touched "" most most_global now op s asks.0).1 within.1,
      )
