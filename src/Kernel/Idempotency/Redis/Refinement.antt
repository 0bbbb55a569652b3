-- ===== src/Kernel/Idempotency/Redis/Refinement.antt =====
-- redis-idempotency-store.ts against in-memory-idempotency-store.ts
use text.Mathlib.TextLemmas.{append_cancel_left}
use mathlib.Core.Path.{ap₂}
use ethixweb_ai_csr.Common.{
  List, [], ◌∷◌, ℕ, ◌≤◌, ◌<◌, ◌≡◌, refl, Option, none, some, String, arith, str_eq, if◌then◌else◌,
  eq_iff, or_default, Option-cases, inl, inr,
}
use ethixweb_ai_csr.Kernel.Idempotency.{
  Entry, IdempotencyOutcome, in_flight, completed, IdempotencyOutcome, proceed, pending, done,
  default_ttl_seconds, expiry, Store, live, unexpired, reserved, outcome_of, expires_at,
}
use ethixweb_ai_csr.Kernel.Idempotency
use ethixweb_ai_csr.Kernel.Idempotency.Exclusive.{Operation, begins, completes, releases}
use ethixweb_ai_csr.Kernel.Idempotency.View.{
  begin_key_lem, live_later, complete_lem, release_lem, unreserved,
}
use ethixweb_ai_csr.Kernel.Idempotency.Redis.{
  Redis, Codec, in_flight_marker, namespaced_key, read_back, begin_key, complete, release,
}

module _ (redis : Redis) {R : Type 0} (codec : Codec R) (key_prefix : Option String) where
  open redis use {State, get}

  -- The text that stands for an entry.
  abbrev pub encode : Option (Entry R) → Option String
  encode none = none
  encode (some (in_flight t)) = some in_flight_marker
  encode (some (completed r t)) = some (codec.stringify r)

  -- From a time on, a `GET` of each key finds what the in-memory store shows.
  abbrev pub Agrees : ℕ → State → Store R → Type 0
  Agrees now s m =
      (key : String) (t : ℕ)
      → now ≤ t
      → get (namespaced_key redis codec key_prefix key) t s ≡ encode (live key t m)

  namespaced_key-str_eq :
      (j k : String)
      → str_eq (namespaced_key redis codec key_prefix j) (namespaced_key redis codec key_prefix k)
        ≡ str_eq j k
  unfolding namespaced_key
  namespaced_key-str_eq j k = ground (
    arith,
    eq_iff j k,
    eq_iff (namespaced_key redis codec key_prefix j) (namespaced_key redis codec key_prefix k),
    append_cancel_left (or_default key_prefix "idempotency:") j k,
  )

  read_back-encode :
      (e : Entry R) → read_back redis codec key_prefix (encode (some e)) ≡ outcome_of (some e)
  unfolding read_back
  read_back-encode (in_flight t) = ground (arith, eq_iff in_flight_marker in_flight_marker)
  read_back-encode (completed r t) = ground (arith, codec.stringify-ne r, codec.parse-stringify r)

  -- Where the two stores agree, `begin` gives the same answer on both and they agree afterwards, if
  -- no other client acts between its two commands.
  pub begin_key-Agrees :
      (key : String) (ttl_seconds : Option ℕ) (now : ℕ) (s : State) (m : Store R)
      → 0 < or_default ttl_seconds default_ttl_seconds
      → Agrees now s m
      → ((begin_key redis codec key_prefix key ttl_seconds now (λ s'. s') now s).1
          ≡ (Idempotency.begin_key key ttl_seconds now m).1)
        × Agrees now
            (begin_key redis codec key_prefix key ttl_seconds now (λ s'. s') now s).0
            (Idempotency.begin_key key ttl_seconds now m).0
  unfolding begin_key
  begin_key-Agrees key ttl now s m pos agree =
      let k = namespaced_key redis codec key_prefix key in
      let reserves =
        redis.set_nx_reserves k in_flight_marker (or_default ttl default_ttl_seconds) now s pos in
      let answers = (begin_key_lem key ttl now now key m (omega arith)).0 in
      let found = agree key now (omega arith) in
      (
        elim (Option-cases (live key now m)) [
          | inl free ↦ ground (arith, reserves, answers, found, free)
          | inr (e, taken) ↦ ground (
            arith,
            reserves,
            answers,
            found,
            taken,
            read_back-encode e,
            redis.get-set_nx k in_flight_marker (or_default ttl default_ttl_seconds) now now k s pos
                (omega arith),
            eq_iff k k,
          )
        ],
        λ other t le.
            let j = namespaced_key redis codec key_prefix other in
            elim (Option-cases (live key now m)) [
              | inl free ↦ ground (
                arith,
                reserves,
                found,
                free,
                redis.get-set_nx k in_flight_marker (or_default ttl default_ttl_seconds) now t j s
                    pos le,
                (begin_key_lem key ttl now t other m le).1,
                namespaced_key-str_eq key other,
                agree other t le,
              )
              | inr (e, taken) ↦ ground (
                arith,
                reserves,
                found,
                taken,
                redis.get-set_nx k in_flight_marker (or_default ttl default_ttl_seconds) now t j s
                    pos le,
                (begin_key_lem key ttl now t other m le).1,
                namespaced_key-str_eq key other,
                agree other t le,
                live_later key now t m le,
                eq_iff key other,
              )
            ],
      )

  -- So does `complete`.
  complete-Agrees :
      (key : String) (result : R) (ttl_seconds : Option ℕ) (now : ℕ) (s : State) (m : Store R)
      → 0 < or_default ttl_seconds default_ttl_seconds
      → Agrees now s m
      → Agrees now
          (complete redis codec key_prefix key result ttl_seconds now s)
          (Idempotency.complete key result ttl_seconds now m)
  unfolding complete
  complete-Agrees key result ttl now s m pos agree other t le =
      let k = namespaced_key redis codec key_prefix key in
      let j = namespaced_key redis codec key_prefix other in
      ground (
        arith,
        redis.get-set k (codec.stringify result) (or_default ttl default_ttl_seconds) now t j s pos
            le,
        complete_lem key result ttl now t other m,
        namespaced_key-str_eq key other,
        agree other t le,
      )

  -- The helper takes what the in-memory store shows, in each of its forms.
  release-get :
      (e : Option (Entry R)) (key other : String) (now t : ℕ) (s : State) (m : Store R)
      → live key now m ≡ e
      → now ≤ t
      → Agrees now s m
      → get
          (namespaced_key redis codec key_prefix other)
          t
          (release redis codec key_prefix key now (λ s'. s') s)
        ≡ encode (if str_eq key other then unreserved (live key t m) else live other t m)
  unfolding release
  release-get none key other now t s m shown le agree = ground (
    arith,
    agree key now (omega arith),
    agree other t le,
    live_later key now t m le,
    eq_iff key other,
  )
  release-get (some (in_flight x)) key other now t s m shown le agree = ground (
    arith,
    agree key now (omega arith),
    agree other t le,
    live_later key now t m le,
    namespaced_key-str_eq key other,
    redis.get-del (namespaced_key redis codec key_prefix key) t
        (namespaced_key redis codec key_prefix other) s,
    eq_iff in_flight_marker in_flight_marker,
    eq_iff key other,
  )
  release-get (some (completed r x)) key other now t s m shown le agree = ground (
    arith,
    agree key now (omega arith),
    agree other t le,
    live_later key now t m le,
    codec.stringify-ne r,
    eq_iff key other,
  )

  -- And so does `release`, if no other client acts between its two commands.
  release-Agrees :
      (key : String) (now : ℕ) (s : State) (m : Store R)
      → Agrees now s m
      → Agrees now (release redis codec key_prefix key now (λ s'. s') s) (Idempotency.release key m)
  unfolding release
  release-Agrees key now s m agree other t le =
      rw (release_lem key t other m)
        (release-get (live key now m) key other now t s m refl le agree)

  -- What the `begin`s of a sequence of timed operations answer.
  unfoldable pub answers : List (ℕ × Operation R) → Store R → List (IdempotencyOutcome R)
  answers [] m = []
  answers ((now, begins key ttl) ∷ ops) m =
      (Idempotency.begin_key key ttl now m).1 ∷ answers ops (Idempotency.begin_key key ttl now m).0
  answers ((now, completes key result ttl) ∷ ops) m =
      answers ops (Idempotency.complete key result ttl now m)
  answers ((now, releases key) ∷ ops) m = answers ops (Idempotency.release key m)

  pub redis_answers : List (ℕ × Operation R) → State → List (IdempotencyOutcome R)
  redis_answers [] s = []
  redis_answers ((now, begins key ttl) ∷ ops) s =
      (begin_key redis codec key_prefix key ttl now (λ s'. s') now s).1
      ∷ redis_answers ops (begin_key redis codec key_prefix key ttl now (λ s'. s') now s).0
  redis_answers ((now, completes key result ttl) ∷ ops) s =
      redis_answers ops (complete redis codec key_prefix key result ttl now s)
  redis_answers ((now, releases key) ∷ ops) s =
      redis_answers ops (release redis codec key_prefix key now (λ s'. s') s)

  -- The times do not step back, and every time to live is positive.
  abbrev pub IsTimeline : ℕ → List (ℕ × Operation R) → Type 0
  IsTimeline from [] = Unit {0}
  IsTimeline from ((now, begins key ttl) ∷ ops) =
      (from ≤ now) × (0 < or_default ttl default_ttl_seconds) × IsTimeline now ops
  IsTimeline from ((now, completes key result ttl) ∷ ops) =
      (from ≤ now) × (0 < or_default ttl default_ttl_seconds) × IsTimeline now ops
  IsTimeline from ((now, releases key) ∷ ops) = (from ≤ now) × Unit {0} × IsTimeline now ops

  Agrees-later :
      {from now : ℕ} (s : State) (m : Store R) → from ≤ now → Agrees from s m → Agrees now s m
  Agrees-later {from} {now} s m le agree key t le' = agree key t (omega arith)

  -- Over any sequence of operations at times that do not step back, with no other client between the
  -- commands of one operation, the Redis store gives the answers of the in-memory store, from states
  -- that agree.
  pub redis_answers_lem :
      (from : ℕ) (ops : List (ℕ × Operation R)) (s : State) (m : Store R)
      → IsTimeline from ops
      → Agrees from s m
      → redis_answers ops s ≡ answers ops m
  unfolding redis_answers answers
  redis_answers_lem from [] s m times agree = refl
  redis_answers_lem from ((now, begins key ttl) ∷ ops) s m times agree =
      let (same, agree') =
        begin_key-Agrees key ttl now s m times.1 (Agrees-later s m times.0 agree) in
      ap₂ ◌∷◌ same (redis_answers_lem now ops _ _ times.2 agree')
  redis_answers_lem from ((now, completes key result ttl) ∷ ops) s m times agree =
      redis_answers_lem now ops _ _ times.2
        (complete-Agrees key result ttl now s m times.1 (Agrees-later s m times.0 agree))
  redis_answers_lem from ((now, releases key) ∷ ops) s m times agree =
      redis_answers_lem now ops _ _ times.2
        (release-Agrees key now s m (Agrees-later s m times.0 agree))
