-- ===== src/Examples/Idempotency.antt =====
-- The idempotency stores at concrete keys, with Redis as a list of values that expire and a codec for
-- Booleans.
use ethixweb_ai_csr.Common.{
  ℕ, ◌+◌, ◌*◌, ◌≡◌, refl, Bool, true, false, List, [], ◌∷◌, Option, none, some, String, arith, ltb,
  if◌then◌else◌, is_some, lookup, insert, remove, lookup-insert, lookup-remove, eq_iff, str_eq,
}
use ethixweb_ai_csr.Kernel.Idempotency.{
  Store, proceed, pending, done, begin_key, live, complete, release,
}
use ethixweb_ai_csr.Kernel.Idempotency.Exclusive.{
  Operation, begins, completes, releases, begin_key_once, times_handed_out,
}
use ethixweb_ai_csr.Kernel.Idempotency.Redis.{Redis, Codec}
use ethixweb_ai_csr.Kernel.Idempotency.Redis.Refinement.{redis_answers, answers, redis_answers_lem}

abbrev empty : Store ℕ
empty = []

empty_proceeds : (begin_key "call" (some 60) 5 empty).1 ≡ proceed
unfolding begin_key lookup
empty_proceeds = refl

abbrev rest : List (ℕ × Operation ℕ)
rest = (6, begins "call" none) ∷ (7, completes "call" 1 none) ∷ (8, begins "call" (some 1)) ∷ []

begin_key_once_example : times_handed_out "call" rest (begin_key "call" (some 60) 5 empty).0 ≡ 0
begin_key_once_example =
    begin_key_once "call" (some 60) 5 empty rest empty_proceeds
      (omega arith, ((omega arith, λ _. omega arith), (omega arith, tt)))

-- Values with the time at which they expire.
abbrev Values : Type 0
Values = List (String × (String × ℕ))

abbrev alive : ℕ → Option (String × ℕ) → Option String
alive t none = none
alive t (some (value, until)) = if ltb t until then some value else none

abbrev get : String → ℕ → Values → Option String
get key t s = alive t (lookup key s)

abbrev set : String → String → ℕ → ℕ → Values → Values
set key value ttl now s = insert key (value, now + ttl * 1000) s

abbrev set_nx : String → String → ℕ → ℕ → Values → Values × Bool
set_nx key value ttl now s =
    if is_some (get key now s) then (s, false) else (set key value ttl now s, true)

get-set :
    (key value : String) (ttl now t : ℕ) (other : String) (s : Values)
    → get other t (set key value ttl now s) ≡ (
        if str_eq key other
        then (if ltb t (now + ttl * 1000) then some value else none)
        else get other t s)
get-set key value ttl now t other s =
    ground (arith, lookup-insert other key (value, now + ttl * 1000) s)

set_nx_reserves :
    (key value : String) (ttl now : ℕ) (s : Values)
    → (set_nx key value ttl now s).1 ≡ (if is_some (get key now s) then false else true)
set_nx_reserves key value ttl now s = ground arith

get-set_nx :
    (key value : String) (ttl now t : ℕ) (other : String) (s : Values)
    → get other t (set_nx key value ttl now s).0 ≡ (
        if str_eq key other
        then (if is_some (get key now s)
            then get key t s
            else (if ltb t (now + ttl * 1000) then some value else none))
        else get other t s)
get-set_nx key value ttl now t other s =
    ground (arith, get-set key value ttl now t other s, eq_iff key other)

get-del :
    (key : String) (t : ℕ) (other : String) (s : Values)
    → get other t (remove key s) ≡ (if str_eq key other then none else get other t s)
get-del key t other s = ground (arith, lookup-remove other key s)

abbrev redis : Redis
redis = record {
  State = Values;
  get = get;
  set_nx = set_nx;
  set = set;
  del = remove;
  set_nx_reserves = λ key value ttl now s h. set_nx_reserves key value ttl now s;
  get-set_nx = λ key value ttl now t other s h h'. get-set_nx key value ttl now t other s;
  get-set = λ key value ttl now t other s h h'. get-set key value ttl now t other s;
  get-del = get-del;
}

abbrev stringify : Bool → String
stringify true = "true"
stringify false = "false"

parse-stringify : (b : Bool) → str_eq (stringify b) "true" ≡ b
parse-stringify true = refl
parse-stringify false = refl

stringify-ne : (b : Bool) → str_eq (stringify b) "__IN_FLIGHT__" ≡ false
stringify-ne true = refl
stringify-ne false = refl

abbrev codec : Codec Bool
codec = record {
  stringify = stringify;
  parse = λ s. str_eq s "true";
  parse-stringify = parse-stringify;
  stringify-ne = stringify-ne;
}

abbrev work : List (ℕ × Operation Bool)
work =
    (5, begins "call" none)
    ∷ (6, begins "call" none)
    ∷ (7, completes "call" true none)
    ∷ (8, releases "call")
    ∷ (9, begins "call" none)
    ∷ []

redis_answers_lem_example :
    redis_answers redis codec none work [] ≡ answers redis codec none work []
unfolding live lookup
redis_answers_lem_example =
    redis_answers_lem redis codec none 5 work [] []
      (
        omega arith,
        omega arith,
        (
          omega arith,
          omega arith,
          (omega arith, omega arith, (omega arith, tt, (omega arith, omega arith, tt))),
        ),
      )
      (λ key t h. refl)

answers_test : answers redis codec none work [] ≡ proceed ∷ pending ∷ done true ∷ []
unfolding answers begin_key lookup insert complete release
answers_test = refl
