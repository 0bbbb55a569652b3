-- ===== src/Examples/Relay.antt =====
-- outbox.ts on a batch of two records, of which the first cannot be marked.
use ethixweb_ai_csr.Common.{ℕ, ◌+◌, ◌≡◌, [], ◌∷◌, none, String, str_eq, if◌then◌else◌}
use ethixweb_ai_csr.Kernel.Outbox.{
  OutboxRecord, Completion, completes, throws, published, marked, reported, relay_outbox_batch,
  relay_outbox_batch_lem,
}

abbrev item : String → OutboxRecord ℕ
item id = record {
  id = id;
  tenant_id = none;
  aggregate_type = "lead";
  aggregate_id = "7";
  event_type = "LeadCreated";
  payload = 1;
  dedup_key = none;
  created_at = 0;
}

abbrev publish : OutboxRecord ℕ → Completion ℕ
publish r = completes

abbrev mark_dispatched : OutboxRecord ℕ → Completion ℕ
mark_dispatched r = if str_eq r.id "a" then throws 9 else completes

relay_outbox_batch_lem_example :
    ((relay_outbox_batch publish mark_dispatched (λ _. item "a" ∷ item "b" ∷ []) none).1
      ≡ published (item "a")
        ∷ marked (item "a")
        ∷ reported (item "a") 9
        ∷ published (item "b")
        ∷ marked (item "b")
        ∷ [])
    × ((relay_outbox_batch publish mark_dispatched (λ _. item "a" ∷ item "b" ∷ []) none).0.processed
        ≡ 2)
    × ((relay_outbox_batch publish mark_dispatched
          (λ _. item "a" ∷ item "b" ∷ [])
          none).0.dispatched
        ≡ 1)
    × ((relay_outbox_batch publish mark_dispatched
            (λ _. item "a" ∷ item "b" ∷ [])
            none).0.dispatched
          + (relay_outbox_batch publish mark_dispatched
              (λ _. item "a" ∷ item "b" ∷ [])
              none).0.failed
        ≡ (relay_outbox_batch publish mark_dispatched
            (λ _. item "a" ∷ item "b" ∷ [])
            none).0.processed)
relay_outbox_batch_lem_example =
    relay_outbox_batch_lem publish mark_dispatched (λ _. item "a" ∷ item "b" ∷ []) none
