-- ===== src/Conversation/Admission/Starts.antt =====
-- `admitTurn` and `execute` of handle-turn.use-case.ts: how often a turn is run.
use ethixweb_ai_csr.Common.{
  ℕ, ◌+◌, ◌*◌, ◌≤◌, ◌<◌, List, [], ◌∷◌, Option, none, some, String, arith, str_eq, if◌then◌else◌,
  leb, lookup, lookup-insert, lookup-remove, remove, eq_iff, All,
}
use ethixweb_ai_csr.Kernel.Idempotency.{
  Entry, in_flight, completed, expires_at, expiry, Store, begin_key, complete, release,
}
use ethixweb_ai_csr.Conversation.Records.{Conversation}
use ethixweb_ai_csr.Conversation.Repository.{Repository, find_by_id}
use ethixweb_ai_csr.Conversation.Admission.{
  HandleTurnCommand, HandleTurnResult, TurnAdmission, cached, live, conversation_not_found,
  conversation_already_ended, turn_already_in_flight, TurnOutcome, returned, threw,
  turn_ttl_seconds, turn_key, admit_turn, admit_found, admission, settle_turn,
}

module _ {J : Type 0} (repository : Repository J) where
  open repository use {State}

  -- What a request does to the store: it is admitted or not, at whatever state the repository is in by
  -- then; and a turn that was admitted ends.
  pub data Event : Type 0 where
    admits : HandleTurnCommand J → State → Event
    settles : String → TurnOutcome → Event

  pub apply : ℕ × Event → Store HandleTurnResult → Store HandleTurnResult
  apply (now, admits c s) store = (admit_turn repository c now s store).0
  apply (now, settles key outcome) store = settle_turn key outcome now store

  abbrev is_start : String → TurnAdmission J → ℕ
  is_start key (live conversation k) = if str_eq k key then 1 else 0
  is_start key (cached r) = 0
  is_start key (conversation_not_found id) = 0
  is_start key (conversation_already_ended id) = 0
  is_start key (turn_already_in_flight k) = 0

  abbrev is_failure : String → String → TurnOutcome → ℕ
  is_failure key k (returned r) = 0
  is_failure key k (threw error) = if str_eq k key then 1 else 0

  starts : String → ℕ × Event → Store HandleTurnResult → ℕ
  starts key (now, admits c s) store = is_start key (admit_turn repository c now s store).1
  starts key (now, settles k outcome) store = 0

  failures : String → ℕ × Event → ℕ
  failures key (now, admits c s) = 0
  failures key (now, settles k outcome) = is_failure key k outcome

  pub times_started : String → List (ℕ × Event) → Store HandleTurnResult → ℕ
  times_started key [] store = 0
  times_started key (e ∷ es) store = starts key e store + times_started key es (apply e store)

  pub times_failed : String → List (ℕ × Event) → ℕ
  times_failed key [] = 0
  times_failed key (e ∷ es) = failures key e + times_failed key es

  -- 1 where the key has no entry that lasts until a time.
  abbrev credit_of : ℕ → Option (Entry HandleTurnResult) → ℕ
  credit_of until none = 1
  credit_of until (some e) = if leb until (expires_at e) then 0 else 1

  credit : String → ℕ → Store HandleTurnResult → ℕ
  credit key until store = credit_of until (lookup key store)

  abbrev pub WithinHour : ℕ → ℕ × Event → Type 0
  WithinHour start (now, e) = (start ≤ now) × (now < start + 3600 * 1000)

  admit_found-credit :
      (key : String) (start now : ℕ) (c : HandleTurnCommand J) (found : Option (Conversation J))
      (store : Store HandleTurnResult)
      → start ≤ now
      → now < start + 3600 * 1000
      → is_start key (admit_found repository c now found store).1
          + credit key (start + 3600 * 1000) (admit_found repository c now found store).0
        ≤ credit key (start + 3600 * 1000) store
  unfolding admit_found admission begin_key credit
  admit_found-credit key start now c none store low high = omega arith
  admit_found-credit key start now c (some conversation) store low high =
      let k = turn_key c in
      let reservation : Entry HandleTurnResult = in_flight (expiry turn_ttl_seconds now) in
      ground (
        arith,
        lookup-remove key k store,
        lookup-insert key k reservation store,
        lookup-insert key k reservation (remove k store),
        eq_iff k key,
      )

  settle_turn-credit :
      (key k : String) (outcome : TurnOutcome) (start now : ℕ) (store : Store HandleTurnResult)
      → start ≤ now
      → credit key (start + 3600 * 1000) (settle_turn k outcome now store)
        ≤ credit key (start + 3600 * 1000) store + is_failure key k outcome
  unfolding settle_turn credit complete release
  settle_turn-credit key k (returned r) start now store low =
      let completion = completed r (expiry turn_ttl_seconds now) in
      ground (arith, lookup-insert key k completion store, eq_iff k key)
  settle_turn-credit key k (threw error) start now store low =
      ground (arith, lookup-remove key k store, eq_iff k key)

  apply-credit :
      (key : String) (start : ℕ) (e : ℕ × Event) (store : Store HandleTurnResult)
      → WithinHour start e
      → starts key e store + credit key (start + 3600 * 1000) (apply e store)
        ≤ credit key (start + 3600 * 1000) store + failures key e
  unfolding apply starts failures admit_turn
  apply-credit key start (now, admits c s) store h = omega (
    arith,
    admit_found-credit key start now c (find_by_id repository c.tenant_id c.conversation_id s) store
        h.0 h.1,
  )
  apply-credit key start (now, settles k outcome) store h =
      omega (arith, settle_turn-credit key k outcome start now store h.0)

  times_started-credit :
      (key : String) (start : ℕ) (es : List (ℕ × Event)) (store : Store HandleTurnResult)
      → All (WithinHour start) es
      → times_started key es store ≤ credit key (start + 3600 * 1000) store + times_failed key es
  unfolding times_started times_failed
  times_started-credit key start [] store h = omega arith
  times_started-credit key start (e ∷ es) store h = omega (
    arith,
    apply-credit key start e store h.0,
    times_started-credit key start es (apply e store) h.1,
  )

  credit-le :
      (key : String) (until : ℕ) (store : Store HandleTurnResult) → credit key until store ≤ 1
  unfolding credit
  credit-le key until store = ground arith

  -- Within an hour, however requests overlap and whatever becomes of their conversations: the turn of an
  -- idempotency key is started at most once more often than it has thrown. So it is started once at most
  -- if it does not throw.
  pub times_started_most :
      (key : String) (start : ℕ) (es : List (ℕ × Event)) (store : Store HandleTurnResult)
      → All (WithinHour start) es
      → times_started key es store ≤ 1 + times_failed key es
  times_started_most key start es store h =
      omega (
        arith,
        times_started-credit key start es store h,
        credit-le key (start + 3600 * 1000) store,
      )
