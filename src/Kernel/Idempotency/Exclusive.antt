-- ===== src/Kernel/Idempotency/Exclusive.antt =====
-- in-memory-idempotency-store.ts: to whom a reserved key is handed out.
use ethixweb_ai_csr.Common.{
  ℕ, ◌+◌, ◌≤◌, ◌<◌, ◌≡◌, ◌≢◌, refl, Bool, true, false, ◌&&◌, List, [], ◌∷◌, Option, none, some,
  String, arith, str_eq, if◌then◌else◌, lookup, lookup-insert, lookup-remove, remove, eq_iff, All,
}
use ethixweb_ai_csr.Kernel.Idempotency.{
  Entry, in_flight, completed, IdempotencyOutcome, proceed, expiry, expires_at, Store, begin_key,
  complete, release,
}

-- The operations of the port.
pub data Operation (R : Type 0) : Type 0 where
  begins : String → Option ℕ → Operation R
  completes : String → R → Option ℕ → Operation R
  releases : String → Operation R

module _ {R : Type 0} where
  pub is_proceed : IdempotencyOutcome R → Bool
  is_proceed proceed = true
  is_proceed _ = false

  pub apply : ℕ × Operation R → Store R → Store R
  apply (now, begins key ttl_seconds) s = (begin_key key ttl_seconds now s).0
  apply (now, completes key result ttl_seconds) s = complete key result ttl_seconds now s
  apply (now, releases key) s = release key s

  -- 1 for a `begin` of the key that may proceed.
  pub handed_out : String → ℕ × Operation R → Store R → ℕ
  unfolding is_proceed
  handed_out key (now, begins k ttl_seconds) s =
      if str_eq k key && is_proceed (begin_key k ttl_seconds now s).1 then 1 else 0
  handed_out key (now, completes k result ttl_seconds) s = 0
  handed_out key (now, releases k) s = 0

  -- How often the key is handed out over a sequence of timed operations.
  pub times_handed_out : String → List (ℕ × Operation R) → Store R → ℕ
  times_handed_out key [] s = 0
  times_handed_out key (op ∷ ops) s = handed_out key op s + times_handed_out key ops (apply op s)

  -- The key has an entry that lasts until a time.
  abbrev pub LastsUntil : ℕ → Option (Entry R) → Type 0
  LastsUntil until none = ⊥
  LastsUntil until (some e) = until ≤ expires_at e

  -- The operation comes before that time, does not release the key, and if it completes the key then
  -- with a result that is kept at least until then.
  abbrev pub Keeps : String → ℕ → ℕ × Operation R → Type 0
  Keeps key until (now, begins k ttl_seconds) = now < until
  Keeps key until (now, completes k result ttl_seconds) =
      (now < until) × (k ≡ key → until ≤ expiry ttl_seconds now)
  Keeps key until (now, releases k) = (now < until) × (k ≢ key)

  apply-LastsUntil :
      (key : String) (until : ℕ) (op : ℕ × Operation R) (s : Store R)
      → Keeps key until op
      → LastsUntil until (lookup key s)
      → LastsUntil until (lookup key (apply op s)) × (handed_out key op s ≡ 0)
  unfolding apply handed_out begin_key complete release
  apply-LastsUntil key until (now, begins k ttl) s keep lasts =
      let fresh : Entry R = in_flight (expiry ttl now) in
      ground (
        arith,
        lookup-remove key k s,
        lookup-insert key k fresh s,
        lookup-insert key k fresh (remove k s),
        eq_iff k key,
      )
  apply-LastsUntil key until (now, completes k result ttl) s keep lasts =
      ground (arith, lookup-insert key k (completed result (expiry ttl now)) s, eq_iff k key)
  apply-LastsUntil key until (now, releases k) s keep lasts =
      ground (arith, lookup-remove key k s, eq_iff k key)

  LastsUntil-times_handed_out :
      (key : String) (until : ℕ) (ops : List (ℕ × Operation R)) (s : Store R)
      → All (Keeps key until) ops
      → LastsUntil until (lookup key s)
      → times_handed_out key ops s ≡ 0
  unfolding times_handed_out
  LastsUntil-times_handed_out key until [] s keep lasts = refl
  LastsUntil-times_handed_out key until (op ∷ ops) s keep lasts =
      let (lasts', once) = apply-LastsUntil key until op s keep.0 lasts in
      omega (arith, once, LastsUntil-times_handed_out key until ops (apply op s) keep.1 lasts')

  begin_key-LastsUntil :
      (key : String) (ttl_seconds : Option ℕ) (now : ℕ) (s : Store R)
      → (begin_key key ttl_seconds now s).1 ≡ proceed
      → LastsUntil (expiry ttl_seconds now) (lookup key (begin_key key ttl_seconds now s).0)
  unfolding begin_key
  begin_key-LastsUntil key ttl now s e =
      let fresh : Entry R = in_flight (expiry ttl now) in
      ground (
        arith,
        lookup-insert key key fresh s,
        lookup-insert key key fresh (remove key s),
        eq_iff key key,
      )

  -- Once a `begin` of a key may proceed, no other `begin` of it may until its reservation expires,
  -- through any operations before then that do not release the key, and complete it only with a
  -- result that is kept as long.
  pub begin_key_once :
      (key : String) (ttl_seconds : Option ℕ) (now : ℕ) (s : Store R) (ops : List (ℕ × Operation R))
      → (begin_key key ttl_seconds now s).1 ≡ proceed
      → All (Keeps key (expiry ttl_seconds now)) ops
      → times_handed_out key ops (begin_key key ttl_seconds now s).0 ≡ 0
  begin_key_once key ttl now s ops e keep =
      LastsUntil-times_handed_out key (expiry ttl now) ops _ keep
        (begin_key-LastsUntil key ttl now s e)
