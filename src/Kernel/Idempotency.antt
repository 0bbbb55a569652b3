-- ===== src/Kernel/Idempotency.antt =====
-- packages/shared-kernel/src/idempotency/in-memory-idempotency-store.ts (and the port that it
-- implements, idempotency-store.ts). Every operation reads the clock once.
pub mod View
pub mod Exclusive
pub mod Redis
use ethixweb_ai_csr.Common.{
  ℕ, ◌+◌, ◌*◌, Bool, List, Option, none, some, String, leb, if◌then◌else◌, or_default, lookup,
  insert, remove,
}

-- `status` and `result` of an entry, with its `expiresAt` last.
pub data Entry (R : Type 0) : Type 0 where
  in_flight : ℕ → Entry R
  completed : R → ℕ → Entry R

pub data IdempotencyOutcome (R : Type 0) : Type 0 where
  proceed pending : IdempotencyOutcome R
  done : R → IdempotencyOutcome R

abbrev pub default_ttl_seconds : ℕ
default_ttl_seconds = 86400

-- `Date.now() + (options.ttlSeconds ?? DEFAULT_TTL_SECONDS) * 1000`
abbrev pub expiry : Option ℕ → ℕ → ℕ
expiry ttl_seconds now = now + or_default ttl_seconds default_ttl_seconds * 1000

-- The entries of the `Map`.
abbrev pub Store : Type 0 → Type 0
Store R = List (String × Entry R)

module _ {R : Type 0} where
  abbrev pub expires_at : Entry R → ℕ
  expires_at (in_flight t) = t
  expires_at (completed r t) = t

  purge : String → Option (Entry R) → ℕ → Store R → Store R
  purge key none now s = s
  purge key (some existing) now s = if leb (expires_at existing) now then remove key s else s

  purge_if_expired : String → ℕ → Store R → Store R
  unfolding purge
  purge_if_expired key now s = purge key (lookup key s) now s

  reserve : String → Option ℕ → ℕ → Option (Entry R) → Store R → Store R × IdempotencyOutcome R
  reserve key ttl_seconds now none s = (insert key (in_flight (expiry ttl_seconds now)) s, proceed)
  reserve key ttl_seconds now (some (in_flight t)) s = (s, pending)
  reserve key ttl_seconds now (some (completed r t)) s = (s, done r)

  -- `begin`
  unfoldable pub begin_key : String → Option ℕ → ℕ → Store R → Store R × IdempotencyOutcome R
  unfolding reserve purge_if_expired
  begin_key key ttl_seconds now s =
      let s' = purge_if_expired key now s in reserve key ttl_seconds now (lookup key s') s'

  unfoldable pub complete : String → R → Option ℕ → ℕ → Store R → Store R
  complete key result ttl_seconds now s = insert key (completed result (expiry ttl_seconds now)) s

  release_entry : String → Option (Entry R) → Store R → Store R
  release_entry key (some (in_flight t)) s = remove key s
  release_entry key _ s = s

  unfoldable pub release : String → Store R → Store R
  unfolding release_entry
  release key s = release_entry key (lookup key s) s

  -- What is left of an entry at a time.
  abbrev pub unexpired : Option (Entry R) → ℕ → Option (Entry R)
  unexpired none t = none
  unexpired (some e) t = if leb (expires_at e) t then none else some e

  -- The entry of a key that has not expired: all that a caller can see of the store.
  unfoldable pub live : String → ℕ → Store R → Option (Entry R)
  live key t s = unexpired (lookup key s) t

  abbrev pub outcome_of : Option (Entry R) → IdempotencyOutcome R
  outcome_of none = proceed
  outcome_of (some (in_flight t)) = pending
  outcome_of (some (completed r t)) = done r

  abbrev pub reserved : Option (Entry R) → Entry R → Option (Entry R)
  reserved none e = some e
  reserved (some old) e = some old
