-- ===== src/Kernel/Idempotency/View.antt =====
-- in-memory-idempotency-store.ts: what each operation does to what callers can see of the store.
use ethixweb_ai_csr.Common.{
  ℕ, ◌≤◌, ◌≡◌, Option, none, some, String, arith, str_eq, if◌then◌else◌, lookup-insert,
  lookup-remove, remove, eq_iff,
}
use ethixweb_ai_csr.Kernel.Idempotency.{
  Entry, in_flight, completed, expiry, Store, begin_key, complete, release, live, unexpired,
  outcome_of, reserved,
}

module _ {R : Type 0} where
  -- What is left of an entry later on is what is left of what is left now.
  pub live_later :
      (key : String) (now t : ℕ) (s : Store R)
      → now ≤ t
      → unexpired (live key now s) t ≡ live key t s
  unfolding live
  live_later key now t s le = ground arith

  -- `begin` answers by the entry of the key that has not expired, and reserves the key only where
  -- there is none; what is seen of other keys stays as it was.
  pub begin_key_lem :
      (key : String) (ttl_seconds : Option ℕ) (now t : ℕ) (other : String) (s : Store R)
      → now ≤ t
      → ((begin_key key ttl_seconds now s).1 ≡ outcome_of (live key now s))
        × (live other t (begin_key key ttl_seconds now s).0 ≡ (
            if str_eq key other
            then unexpired (reserved (live key now s) (in_flight (expiry ttl_seconds now))) t
            else live other t s))
  unfolding begin_key live
  begin_key_lem key ttl_seconds now t other s le =
      let fresh : Entry R = in_flight (expiry ttl_seconds now) in
      (
        ground (arith, lookup-remove key key s, eq_iff key key),
        ground (
          arith,
          lookup-remove key key s,
          lookup-remove other key s,
          lookup-insert other key fresh s,
          lookup-insert other key fresh (remove key s),
          eq_iff key key,
          eq_iff key other,
        ),
      )

  -- A key with an unexpired entry is answered by it, and the store stays as it was.
  pub begin_key_taken :
      (key : String) (ttl_seconds : Option ℕ) (now : ℕ) (s : Store R) (e : Entry R)
      → live key now s ≡ some e
      → begin_key key ttl_seconds now s ≡ (s, outcome_of (some e))
  unfolding begin_key live
  begin_key_taken key ttl_seconds now s e taken = ground arith

  -- `complete` records the result whatever was there before, and touches no other key.
  pub complete_lem :
      (key : String) (result : R) (ttl_seconds : Option ℕ) (now t : ℕ) (other : String)
      (s : Store R)
      → live other t (complete key result ttl_seconds now s) ≡ (
          if str_eq key other
          then unexpired (some (completed result (expiry ttl_seconds now))) t
          else live other t s)
  unfolding complete live
  complete_lem key result ttl_seconds now t other s = ground (
    arith,
    lookup-insert other key (completed result (expiry ttl_seconds now)) s,
    eq_iff key other,
  )

  -- A reservation that is released.
  abbrev pub unreserved : Option (Entry R) → Option (Entry R)
  unreserved (some (in_flight t)) = none
  unreserved e = e

  -- `release` frees a reservation and leaves a completed result, and every other key, alone.
  pub release_lem :
      (key : String) (t : ℕ) (other : String) (s : Store R)
      → live other t (release key s)
        ≡ (if str_eq key other then unreserved (live key t s) else live other t s)
  unfolding release live
  release_lem key t other s = ground (arith, lookup-remove other key s, eq_iff key other)
