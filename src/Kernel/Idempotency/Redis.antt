-- ===== src/Kernel/Idempotency/Redis.antt =====
-- packages/shared-kernel/src/idempotency/redis-idempotency-store.ts
-- Redis and the JSON codec are parameters: the commands that the store sends, with what they are
-- documented to do to the value that a `GET` finds at a time.
pub mod Refinement
use Prim.Native.String.{◌++◌}
use ethixweb_ai_csr.Common.{
  ℕ, ◌+◌, ◌*◌, ◌≤◌, ◌<◌, ◌≡◌, Bool, true, false, Option, none, some, String, ltb, str_eq,
  if◌then◌else◌, is_some, or_default,
}
use ethixweb_ai_csr.Kernel.Idempotency.{
  IdempotencyOutcome, proceed, pending, done, default_ttl_seconds,
}

pub record Redis : Type 1 where
  pub State : Type 0
  pub get : String → ℕ → State → Option String
  -- `SET key value EX ttl NX`, `SET key value EX ttl`, `DEL key`, each at a time.
  pub set_nx : String → String → ℕ → ℕ → State → State × Bool
  pub set : String → String → ℕ → ℕ → State → State
  pub del : String → State → State
  pub set_nx_reserves :
      (key value : String) (ttl now : ℕ) (s : State)
      → 0 < ttl
      → (set_nx key value ttl now s).1 ≡ (if is_some (get key now s) then false else true)
  pub get-set_nx :
      (key value : String) (ttl now t : ℕ) (other : String) (s : State)
      → 0 < ttl
      → now ≤ t
      → get other t (set_nx key value ttl now s).0 ≡ (
          if str_eq key other
          then (if is_some (get key now s)
              then get key t s
              else (if ltb t (now + ttl * 1000) then some value else none))
          else get other t s)
  pub get-set :
      (key value : String) (ttl now t : ℕ) (other : String) (s : State)
      → 0 < ttl
      → now ≤ t
      → get other t (set key value ttl now s) ≡ (
          if str_eq key other
          then (if ltb t (now + ttl * 1000) then some value else none)
          else get other t s)
  pub get-del :
      (key : String) (t : ℕ) (other : String) (s : State)
      → get other t (del key s) ≡ (if str_eq key other then none else get other t s)

-- `JSON.stringify` and `JSON.parse` on results; no JSON text is the marker.
pub record Codec (R : Type 0) : Type 0 where
  pub stringify : R → String
  pub parse : String → R
  pub parse-stringify : (r : R) → parse (stringify r) ≡ r
  pub stringify-ne : (r : R) → str_eq (stringify r) "__IN_FLIGHT__" ≡ false

abbrev pub in_flight_marker : String
in_flight_marker = "__IN_FLIGHT__"

-- `private readonly keyPrefix = DEFAULT_KEY_PREFIX`
abbrev pub default_key_prefix : String
default_key_prefix = "idempotency:"

module _ (redis : Redis) {R : Type 0} (codec : Codec R) (key_prefix : Option String) where
  open redis use {State, get, set_nx, set, del}

  unfoldable pub namespaced_key : String → String
  namespaced_key key = or_default key_prefix default_key_prefix ++ key

  read_back : Option String → IdempotencyOutcome R
  read_back none = pending
  read_back (some existing) =
      if str_eq existing in_flight_marker then pending else done (codec.parse existing)

  -- `begin`: where the key was taken, a `GET` follows at a later time, and other clients may have
  -- changed the state in between.
  unfoldable pub begin_key :
      String → Option ℕ → ℕ → (State → State) → ℕ → State → State × IdempotencyOutcome R
  unfolding read_back
  begin_key key ttl_seconds now between later s =
      let (s', reserved) =
        set_nx (namespaced_key key) in_flight_marker (or_default ttl_seconds default_ttl_seconds)
          now s in
      if reserved
      then (s', proceed)
      else (between s', read_back (get (namespaced_key key) later (between s')))

  unfoldable pub complete : String → R → Option ℕ → ℕ → State → State
  complete key result ttl_seconds now s =
      set (namespaced_key key) (codec.stringify result) (or_default ttl_seconds default_ttl_seconds)
        now s

  delete_marker : String → Option String → State → State
  delete_marker key none s = s
  delete_marker key (some current) s = if str_eq current in_flight_marker then del key s else s

  -- `release`: a `GET`, and a `DEL` if it finds the marker, with other clients in between.
  unfoldable pub release : String → ℕ → (State → State) → State → State
  unfolding delete_marker
  release key now between s =
      delete_marker (namespaced_key key) (get (namespaced_key key) now s) (between s)
