-- ===== src/Kernel/Outbox.antt =====
-- packages/shared-kernel/src/outbox/outbox.ts
-- `publish` and `markDispatched` are functions that may throw, and a pass records its calls of them.
use ethixweb_ai_csr.Common.{
  ℕ, ◌+◌, ◌≡◌, refl, sym, ap, ◌∙◌, List, [], ◌∷◌, ◌++◌, Option, String, arith, length, or_default,
}
use mathlib.Core.List.{append_assoc, append-nil}

pub record OutboxRecord (P : Type 0) : Type 0 where
  pub id : String
  pub tenant_id : Option String
  pub aggregate_type : String
  pub aggregate_id : String
  pub event_type : String
  pub payload : P
  pub dedup_key : Option String
  pub created_at : ℕ

-- How a call that returns nothing ends.
pub data Completion (E : Type 0) : Type 0 where
  completes : Completion E
  throws : E → Completion E

-- The calls of a pass, in order.
pub data Call (P E : Type 0) : Type 0 where
  published marked : OutboxRecord P → Call P E
  reported : OutboxRecord P → E → Call P E

pub record OutboxRelayResult : Type 0 where
  pub processed : ℕ
  pub dispatched : ℕ
  pub failed : ℕ

-- The loop's variables, and the calls made so far.
pub record Pass (P E : Type 0) : Type 0 where
  pub dispatched : ℕ
  pub failed : ℕ
  pub calls : List (Call P E)

abbrev pub default_batch_size : ℕ
default_batch_size = 50

module _ {P E : Type 0} (publish mark_dispatched : OutboxRecord P → Completion E) where
  -- `catch`
  failing : Pass P E → List (Call P E) → Pass P E
  failing p made = record {
    dispatched = p.dispatched;
    failed = p.failed + 1;
    calls = p.calls ++ made;
  }

  marking : OutboxRecord P → Completion E → Pass P E → Pass P E
  marking r completes p = record {
    dispatched = p.dispatched + 1;
    failed = p.failed;
    calls = p.calls ++ published r ∷ marked r ∷ [];
  }
  marking r (throws error) p = failing p (published r ∷ marked r ∷ reported r error ∷ [])

  relay_record : OutboxRecord P → Completion E → Pass P E → Pass P E
  relay_record r completes p = marking r (mark_dispatched r) p
  relay_record r (throws error) p = failing p (published r ∷ reported r error ∷ [])

  relay_records : Pass P E → List (OutboxRecord P) → Pass P E
  relay_records p [] = p
  relay_records p (r ∷ rs) = relay_records (relay_record r (publish r) p) rs

  unfoldable pub relay_outbox_batch :
      (ℕ → List (OutboxRecord P)) → Option ℕ → OutboxRelayResult × List (Call P E)
  unfolding relay_records relay_record marking failing
  relay_outbox_batch fetch_pending_batch batch_size =
      let pending = fetch_pending_batch (or_default batch_size default_batch_size) in
      let pass = relay_records (record { dispatched = 0; failed = 0; calls = [] }) pending in
      (
        record { processed = length pending; dispatched = pass.dispatched; failed = pass.failed },
        pass.calls,
      )

  -- What one record asks for, taken by itself.
  abbrev pub mark_calls : OutboxRecord P → Completion E → List (Call P E)
  mark_calls r completes = []
  mark_calls r (throws error) = reported r error ∷ []

  abbrev pub record_calls : OutboxRecord P → Completion E → List (Call P E)
  record_calls r completes = published r ∷ marked r ∷ mark_calls r (mark_dispatched r)
  record_calls r (throws error) = published r ∷ reported r error ∷ []

  abbrev pub batch_calls : List (OutboxRecord P) → List (Call P E)
  batch_calls [] = []
  batch_calls (r ∷ rs) = record_calls r (publish r) ++ batch_calls rs

  abbrev pub both_complete : Completion E → Completion E → ℕ
  both_complete completes completes = 1
  both_complete _ _ = 0

  abbrev pub batch_dispatched : List (OutboxRecord P) → ℕ
  batch_dispatched [] = 0
  batch_dispatched (r ∷ rs) = both_complete (publish r) (mark_dispatched r) + batch_dispatched rs

  relay_record_lem :
      (r : OutboxRecord P) (x y : Completion E) (p : Pass P E)
      → publish r ≡ x
      → mark_dispatched r ≡ y
      → ((relay_record r x p).calls ≡ p.calls ++ record_calls r x)
        × ((relay_record r x p).dispatched ≡ p.dispatched + both_complete x y)
        × ((relay_record r x p).dispatched + (relay_record r x p).failed
            ≡ p.dispatched + p.failed + 1)
  unfolding relay_record marking failing
  relay_record_lem r completes completes p e f = rw f (refl, refl, omega arith)
  relay_record_lem r completes (throws error) p e f = rw f (refl, omega arith, omega arith)
  relay_record_lem r (throws error) completes p e f = (refl, omega arith, omega arith)
  relay_record_lem r (throws error) (throws error') p e f = (refl, omega arith, omega arith)

  relay_records_lem :
      (p : Pass P E) (rs : List (OutboxRecord P))
      → ((relay_records p rs).calls ≡ p.calls ++ batch_calls rs)
        × ((relay_records p rs).dispatched ≡ p.dispatched + batch_dispatched rs)
        × ((relay_records p rs).dispatched + (relay_records p rs).failed
            ≡ p.dispatched + p.failed + length rs)
  unfolding relay_records
  relay_records_lem p [] = (sym (append-nil p.calls), omega arith, omega arith)
  relay_records_lem p (r ∷ rs) =
      let (calls, sent, total) = relay_record_lem r (publish r) (mark_dispatched r) p refl refl in
      let (calls', sent', total') = relay_records_lem (relay_record r (publish r) p) rs in
      (
        calls' ∙ ap (λ c. c ++ batch_calls rs) calls ∙ append_assoc p.calls _ _,
        omega (arith, sent, sent'),
        omega (arith, total, total'),
      )

  -- A relay pass treats every record of the batch by itself and in order, whatever happened to those
  -- before it: it is published once, marked only if publishing completed, and reported if either
  -- call throws. `dispatched` counts the records for which both calls complete, and every other
  -- record is counted as failed.
  pub relay_outbox_batch_lem :
      (fetch_pending_batch : ℕ → List (OutboxRecord P)) (batch_size : Option ℕ)
      → let pending = fetch_pending_batch (or_default batch_size default_batch_size) in
        let (result, calls) = relay_outbox_batch fetch_pending_batch batch_size in
        (calls ≡ batch_calls pending)
        × (result.processed ≡ length pending)
        × (result.dispatched ≡ batch_dispatched pending)
        × (result.dispatched + result.failed ≡ result.processed)
  unfolding relay_outbox_batch
  relay_outbox_batch_lem fetch_pending_batch batch_size =
      let pending = fetch_pending_batch (or_default batch_size default_batch_size) in
      let start : Pass P E = record { dispatched = 0; failed = 0; calls = [] } in
      let (calls, sent, total) = relay_records_lem start pending in
      (calls, refl, omega (arith, sent), omega (arith, total))
