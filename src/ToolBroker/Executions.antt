-- ===== src/ToolBroker/Executions.antt =====
-- execute-tool.use-case.ts: stages 4 to 6.
use ethixweb_ai_csr.Common.{
  ℕ, ◌+◌, ◌*◌, ◌∙◌, ◌-◌, ◌<◌, ◌≤◌, ◌≡◌, sym, ap, refl, String, arith, none, some, ◌∷◌, eq_iff,
}
use ethixweb_ai_csr.Kernel.Retry.{Outcome, returned, threw, exhausted, range_error}
use ethixweb_ai_csr.Kernel.Idempotency.{
  Store, begin_key, complete, release, live, completed, expiry,
}
use ethixweb_ai_csr.Kernel.Idempotency.View.{
  begin_key_lem, begin_key_taken, complete_lem, release_lem, unreserved,
}
use ethixweb_ai_csr.ToolBroker.{
  tool_handler_error, tool_timeout_error, timed_out_after, max_attempts_below_one, undefined_error,
  reason_of, other_error, Reason, ToolError, settle, degrade, audit, AuditEntry, ToolDefinition,
  ToolRegistry, ExecuteToolCommand, Environment, State, replied, execute, idempotency_key,
  run_handler, ToolExecutionResult, succeeded, degraded, extract_reason, ttl_seconds,
}
use ethixweb_ai_csr.ToolBroker.Guards.{Admitted}

-- What the caller is told of an error: its message, or how long a timed out attempt was given.
abbrev pub Tells : ToolError → Reason → Type 0
Tells (tool_handler_error m retryable) reason = reason ≡ Reason.message m
Tells (tool_timeout_error ms) reason = reason ≡ timed_out_after ms
Tells (other_error m) reason = reason ≡ Reason.message m

-- The attempts of a handler end without an output, for a reason: with the error of the last of them, with
-- no attempt made, or with a range error where fewer than one attempt is allowed.
abbrev pub EndsWith : {J : Type 0} → Outcome J ToolError → Reason → Type 0
EndsWith (returned output) reason = ⊥
EndsWith (threw e) reason = Tells e reason
EndsWith (exhausted n (some e)) reason = Tells e reason
EndsWith (exhausted n none) reason = reason ≡ undefined_error
EndsWith (range_error n) reason = reason ≡ max_attempts_below_one n

reason_of-Tells : (e : ToolError) (reason : Reason) → Tells e reason → reason_of e ≡ reason
unfolding reason_of
reason_of-Tells (tool_handler_error m retryable) reason h = sym h
reason_of-Tells (tool_timeout_error ms) reason h = sym h
reason_of-Tells (other_error m) reason h = sym h

extract_reason-EndsWith :
    {J : Type 0} (o : Outcome J ToolError) (reason : Reason)
    → EndsWith o reason
    → extract_reason o ≡ reason
unfolding extract_reason
extract_reason-EndsWith (returned output) reason h = absurd h
extract_reason-EndsWith (threw e) reason h = reason_of-Tells e reason h
extract_reason-EndsWith (exhausted n (some e)) reason h = reason_of-Tells e reason h
extract_reason-EndsWith (exhausted n none) reason h = sym h
extract_reason-EndsWith (range_error n) reason h = sym h

module _ {J : Type 0} (hash_args : J → String) (tools : ToolRegistry J) where
  -- An admitted call whose key is taken by no entry that lives at its start runs the handler and
  -- records its output.
  execute_returned :
      (c : ExecuteToolCommand J) (definition : ToolDefinition J) (input output : J)
      (env : Environment J) (s : State J)
      → Admitted tools c definition input
      → live (idempotency_key hash_args c input) env.started_at s.store ≡ none
      → (run_handler definition env).outcome ≡ returned output
      → env.success_audit_throws ≡ none
      → let result = succeeded output (env.finished_at - env.started_at) in
        let key = idempotency_key hash_args c input in
        ((execute hash_args tools c env s).1 ≡ replied result)
        × ((execute hash_args tools c env s).0.store
            ≡ complete key result ttl_seconds env.finished_at
                (begin_key key ttl_seconds env.started_at s.store).0)
        × ((execute hash_args tools c env s).0.handler_runs
            ≡ s.handler_runs + (run_handler definition env).calls)
  unfolding execute
  execute_returned c definition input output env s a free ran audited =
      let began =
        begin_key_lem (idempotency_key hash_args c input) ttl_seconds env.started_at env.started_at
          (idempotency_key hash_args c input) s.store (omega arith) in
      (
        ground (arith, a, began.0, free),
        ground (arith, a, began.0, free),
        ground (arith, a, began.0, free),
      )

  execute_done :
      (c : ExecuteToolCommand J) (definition : ToolDefinition J) (input : J) (env : Environment J)
      (s : State J) (result : ToolExecutionResult J) (until : ℕ)
      → Admitted tools c definition input
      → live (idempotency_key hash_args c input) env.started_at s.store
        ≡ some (completed result until)
      → execute hash_args tools c env s ≡ (s, replied result)
  unfolding execute
  execute_done c definition input env s result until a taken = ground (
    arith,
    a,
    begin_key_taken (idempotency_key hash_args c input) ttl_seconds env.started_at s.store
        (completed result until) taken,
  )

  complete_shown :
      (key : String) (result : ToolExecutionResult J) (now t : ℕ)
      (store : Store (ToolExecutionResult J))
      → t < now + 3600 * 1000
      → live key t (complete key result ttl_seconds now store)
        ≡ some (completed result (expiry ttl_seconds now))
  complete_shown key result now t store early =
      ground (arith, complete_lem key result ttl_seconds now t key store, eq_iff key key)

  -- A call that runs its handler to an output, with no entry for its key before, replies with that
  -- output; and the same call once more, started less than an hour after the first has finished,
  -- replies with the same result without running the handler, and changes neither the store, nor the
  -- audit log, nor the count of handler runs.
  pub execute_twice :
      (c : ExecuteToolCommand J) (definition : ToolDefinition J) (input output : J)
      (env again : Environment J) (s : State J)
      → Admitted tools c definition input
      → live (idempotency_key hash_args c input) env.started_at s.store ≡ none
      → (run_handler definition env).outcome ≡ returned output
      → env.success_audit_throws ≡ none
      → again.started_at < env.finished_at + 3600 * 1000
      → let result = succeeded output (env.finished_at - env.started_at) in
        let s' = (execute hash_args tools c env s).0 in
        ((execute hash_args tools c env s).1 ≡ replied result)
        × (s'.handler_runs ≡ s.handler_runs + (run_handler definition env).calls)
        × (execute hash_args tools c again s' ≡ (s', replied result))
  execute_twice c definition input output env again s a free ran audited early =
      let key = idempotency_key hash_args c input in
      let (reply, store, runs) =
        execute_returned c definition input output env s a free ran audited in
      (
        reply,
        runs,
        execute_done c definition input again (execute hash_args tools c env s).0
            (succeeded output (env.finished_at - env.started_at))
            (expiry ttl_seconds env.finished_at) a
            (rw store (complete_shown key _ env.finished_at again.started_at _ early)),
      )

  -- An admitted call with a free key, up to what comes of its handler.
  started : ExecuteToolCommand J → J → ToolDefinition J → Environment J → State J → State J
  started c input definition env s = record s {
    store = (begin_key (idempotency_key hash_args c input) ttl_seconds env.started_at s.store).0;
    handler_runs = s.handler_runs + (run_handler definition env).calls;
  }

  execute_settles :
      (c : ExecuteToolCommand J) (definition : ToolDefinition J) (input : J) (env : Environment J)
      (s : State J)
      → Admitted tools c definition input
      → live (idempotency_key hash_args c input) env.started_at s.store ≡ none
      → execute hash_args tools c env s
        ≡ settle hash_args c input env
            (run_handler definition env).outcome
            (started c input definition env s)
  unfolding execute started
  execute_settles c definition input env s a free =
      let key = idempotency_key hash_args c input in
      ground (
        arith,
        a,
        (begin_key_lem key ttl_seconds env.started_at env.started_at key s.store (omega arith)).0,
        free,
      )

  settle_degrades :
      (c : ExecuteToolCommand J) (input : J) (env : Environment J) (o : Outcome J ToolError)
      (reason : Reason) (s : State J)
      → EndsWith o reason
      → settle hash_args c input env o s ≡ degrade hash_args c input env reason s
  unfolding settle
  settle_degrades c input env (returned output) reason s ends = absurd ends
  settle_degrades c input env (threw e) reason s ends =
      ap (λ r. degrade hash_args c input env r s) (extract_reason-EndsWith (threw e) reason ends)
  settle_degrades c input env (exhausted n e) reason s ends =
      ap (λ r. degrade hash_args c input env r s)
        (extract_reason-EndsWith (exhausted n e) reason ends)
  settle_degrades c input env (range_error n) reason s ends =
      ap (λ r. degrade hash_args c input env r s)
        (extract_reason-EndsWith (range_error n) reason ends)

  -- What `catch` leaves of a key: a completed entry alone.
  degrade_shown :
      (key : String) (t : ℕ) (store : Store (ToolExecutionResult J))
      → live key t (release key store) ≡ unreserved (live key t store)
  degrade_shown key t store = ground (arith, release_lem key t key store, eq_iff key key)

  -- A call that runs its handler to an output, with no entry for its key before, whose audit write behind
  -- the output throws, and whose second audit write, that of the degraded reply, does not throw: the reply
  -- is degraded although the handler has done its work, and the same call once more, started less than an
  -- hour after the first has finished, is told that it succeeded.
  pub execute_audit_throws :
      (c : ExecuteToolCommand J) (definition : ToolDefinition J) (input output : J)
      (env again : Environment J) (s : State J) {message : String}
      → Admitted tools c definition input
      → live (idempotency_key hash_args c input) env.started_at s.store ≡ none
      → (run_handler definition env).outcome ≡ returned output
      → env.success_audit_throws ≡ some (other_error message)
      → env.degraded_audit_throws ≡ none
      → again.started_at < env.finished_at + 3600 * 1000
      → let duration = env.finished_at - env.started_at in
        let s' = (execute hash_args tools c env s).0 in
        ((execute hash_args tools c env s).1 ≡ replied (degraded (Reason.message message) duration))
        × (execute hash_args tools c again s' ≡ (s', replied (succeeded output duration)))
  unfolding settle started
  execute_audit_throws c definition input output env again s a free ran audited ok early =
      let key = idempotency_key hash_args c input in
      let duration = env.finished_at - env.started_at in
      let settled = execute_settles c definition input env s a free in
      let completed_store =
        complete key (succeeded output duration) ttl_seconds env.finished_at
          (started c input definition env s).store in
      (
        rw settled (rw ran (ground arith)),
        execute_done c definition input again (execute hash_args tools c env s).0
            (succeeded output duration) (expiry ttl_seconds env.finished_at) a
            (rw settled (
              rw ran (
                ground (
                  arith,
                  degrade_shown key again.started_at completed_store,
                  complete_shown key (succeeded output duration) env.finished_at again.started_at
                      (started c input definition env s).store early,
                )))),
      )

  -- A call whose handler comes to no output, with no entry for its key before, and for which the audit
  -- write of the degraded reply does not throw, is answered with a degraded reply that gives the error
  -- which ended the handler's attempts: the message of that error, or the timeout of the attempt; its key
  -- is free again afterwards, and the audit log has one more entry, with that reply.
  pub execute_degraded :
      (c : ExecuteToolCommand J) (definition : ToolDefinition J) (input : J) (env : Environment J)
      (s : State J) (t : ℕ) (reason : Reason)
      → Admitted tools c definition input
      → live (idempotency_key hash_args c input) env.started_at s.store ≡ none
      → EndsWith (run_handler definition env).outcome reason
      → env.degraded_audit_throws ≡ none
      → env.started_at ≤ t
      → let result = degraded reason (env.finished_at - env.started_at) in
        let (s', answer) = execute hash_args tools c env s in
        (answer ≡ replied result)
        × (live (idempotency_key hash_args c input) t s'.store ≡ none)
        × ((entry : AuditEntry J) × (s'.audit_log ≡ entry ∷ s.audit_log)
            × (entry.result ≡ result)
            × (entry.idempotency_key ≡ idempotency_key hash_args c input))
  unfolding degrade started
  execute_degraded c definition input env s t reason a free ends audited le =
      let key = idempotency_key hash_args c input in
      let store = (begin_key key ttl_seconds env.started_at s.store).0 in
      let settled =
        execute_settles c definition input env s a free
        ∙ settle_degrades c input env (run_handler definition env).outcome reason
            (started c input definition env s) ends in
      let shown = (begin_key_lem key ttl_seconds env.started_at t key s.store le).1 in
      rw settled (
        ground arith,
        ground (arith, degrade_shown key t store, shown, free, eq_iff key key),
        (audit hash_args c input env _, ground arith, refl, refl),
      )
