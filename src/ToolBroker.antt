-- ===== src/ToolBroker.antt =====
-- apps/voice-orchestrator/src/modules/tool-broker: application/execute-tool.use-case.ts with
-- tool-registry.ts and util/with-timeout.ts, and domain/tool-definition.ts and errors.ts.
-- The idempotency store is the in-memory one. A tool's schema and the hash of its arguments are
-- parameters; what the handler, the clock and the audit log do in one call is its environment.
pub mod Guards
pub mod Executions
use Prim.Native.String.{◌++◌}
use ethixweb_ai_csr.Common.{
  ℕ, ◌+◌, ◌-◌, Bool, true, false, List, [], ◌∷◌, Option, none, some, String, ltb, if◌then◌else◌,
  lookup, join, insert, includes, not,
}
use mathlib.Core.List
use ethixweb_ai_csr.Kernel.Retry.{
  Fraction, RetryPolicyOptions, Attempt, resolved, rejected, Outcome, returned, threw, exhausted,
  range_error, Retried, with_retry,
}
use ethixweb_ai_csr.Kernel.Idempotency.{
  IdempotencyOutcome, proceed, pending, done, Store, begin_key, complete, release,
}

-- What a handler, or the broker's own timer, rejects with.
pub data ToolError : Type 0 where
  tool_handler_error : String → Bool → ToolError
  tool_timeout_error : ℕ → ToolError
  other_error : String → ToolError

-- The message of an error; that of a timeout is known by its milliseconds.
pub data Reason : Type 0 where
  message : String → Reason
  timed_out_after : ℕ → Reason
  max_attempts_below_one : ℕ → Reason
  undefined_error : Reason

pub data Parsed (J : Type 0) : Type 0 where
  success : J → Parsed J
  failure : List (List String × String) → Parsed J

pub record ToolDefinition (J : Type 0) : Type 0 where
  pub name : String
  pub version : String
  pub description : String
  pub json_schema : J
  pub input_schema : J → Parsed J
  pub timeout_ms : ℕ
  pub max_attempts : ℕ

pub data ToolExecutionResult (J : Type 0) : Type 0 where
  succeeded : J → ℕ → ToolExecutionResult J
  degraded : Reason → ℕ → ToolExecutionResult J

pub record ExecuteToolCommand (J : Type 0) : Type 0 where
  pub tenant_id : String
  pub business_id : String
  pub call_id : String
  pub tool_name : String
  pub arguments : J
  pub allowed_tools : List String

-- One entry of the audit log; a degraded one has a message in place of an output.
pub record AuditEntry (J : Type 0) : Type 0 where
  pub tenant_id : String
  pub call_id : String
  pub tool_name : String
  pub input : J
  pub result : ToolExecutionResult J
  pub idempotency_key : String
  pub created_at : ℕ

-- How one call goes outside the broker: what each run of the handler does and how long it takes, the
-- draws of the retry delays, the times before and after, and what the audit writes throw, if anything.
pub record Environment (J : Type 0) : Type 0 where
  pub handler : ℕ → Attempt J ToolError × ℕ
  pub random : ℕ → Fraction
  pub started_at : ℕ
  pub finished_at : ℕ
  pub success_audit_throws : Option ToolError
  pub degraded_audit_throws : Option ToolError

pub record State (J : Type 0) : Type 0 where
  pub store : Store (ToolExecutionResult J)
  pub audit_log : List (AuditEntry J)
  pub handler_runs : ℕ

-- What `execute` returns or throws.
pub data Answer (J : Type 0) : Type 0 where
  replied : ToolExecutionResult J → Answer J
  tool_not_found tool_not_authorized tool_call_in_flight : String → Answer J
  tool_input_invalid : String → String → Answer J
  audit_threw : ToolError → Answer J

-- `ToolRegistry`
abbrev pub ToolRegistry : Type 0 → Type 0
ToolRegistry J = List (String × ToolDefinition J)

unfoldable pub register : {J : Type 0} → ToolDefinition J → ToolRegistry J → ToolRegistry J
register definition tools = insert definition.name definition tools

path_or_root : String → String
path_or_root String.[] = "(root)"
path_or_root (String.◌∷◌ c s) = String.◌∷◌ c s

unfoldable pub format_zod_issues : List (List String × String) → String
unfolding join path_or_root
format_zod_issues issues =
    join "; " (List.map (λ issue. path_or_root (join "." issue.0) ++ (": " ++ issue.1)) issues)

-- `error instanceof ToolHandlerError ? error.retryable : true`
unfoldable pub is_retryable : ToolError → Bool
is_retryable (tool_handler_error m retryable) = retryable
is_retryable (tool_timeout_error ms) = true
is_retryable (other_error m) = true

unfoldable pub reason_of : ToolError → Reason
reason_of (tool_handler_error m retryable) = message m
reason_of (tool_timeout_error ms) = timed_out_after ms
reason_of (other_error m) = message m

-- What `extractReason` finds for each end of `withRetry` that throws.
unfoldable pub extract_reason : {J : Type 0} → Outcome J ToolError → Reason
unfolding reason_of
extract_reason (returned output) = undefined_error
extract_reason (threw e) = reason_of e
extract_reason (exhausted n (some e)) = reason_of e
extract_reason (exhausted n none) = undefined_error
extract_reason (range_error n) = max_attempts_below_one n

abbrev pub ttl_seconds : Option ℕ
ttl_seconds = some 3600

module _ {J : Type 0} where
  -- The operation wins the race if it settles before the timer.
  unfoldable pub with_timeout : ℕ → Attempt J ToolError × ℕ → Attempt J ToolError
  with_timeout timeout_ms (settled, duration) =
      if ltb duration timeout_ms then settled else rejected (tool_timeout_error timeout_ms)

  abbrev pub retry_options : ToolDefinition J → RetryPolicyOptions ToolError
  retry_options definition = record {
    max_attempts = some definition.max_attempts;
    base_delay_ms = none;
    max_delay_ms = none;
    jitter_ratio = none;
    is_retryable = some is_retryable;
  }

  -- Stages 4 and 5: every attempt of the handler under the timer, retried.
  unfoldable pub run_handler : ToolDefinition J → Environment J → Retried J ToolError
  run_handler definition env =
      with_retry (retry_options definition)
        (λ attempt. with_timeout definition.timeout_ms (env.handler attempt)) env.random

module _ {J : Type 0} (hash_args : J → String) where
  unfoldable pub idempotency_key : ExecuteToolCommand J → J → String
  idempotency_key c input =
      "tool:" ++ (c.call_id ++ (":" ++ (c.tool_name ++ (":" ++ hash_args input))))

  audit : ExecuteToolCommand J → J → Environment J → ToolExecutionResult J → AuditEntry J
  audit c input env result = record {
    tenant_id = c.tenant_id;
    call_id = c.call_id;
    tool_name = c.tool_name;
    input = input;
    result = result;
    idempotency_key = idempotency_key c input;
    created_at = env.finished_at;
  }

  -- `await this.auditLog.record(...)`, and the answer if it does not throw.
  record_degraded :
      AuditEntry J → ToolExecutionResult J → Option ToolError → State J → State J × Answer J
  record_degraded entry result none s =
      (record s { audit_log = entry ∷ s.audit_log }, replied result)
  record_degraded entry result (some e) s = (s, audit_threw e)

  -- The `catch` block.
  degrade : ExecuteToolCommand J → J → Environment J → Reason → State J → State J × Answer J
  unfolding audit record_degraded
  degrade c input env reason s =
      let result = degraded reason (env.finished_at - env.started_at) in
      record_degraded (audit c input env result) result env.degraded_audit_throws
        (record s { store = release (idempotency_key c input) s.store })

  -- The rest of the `try` block once the handler has an output; an error of the audit write is caught.
  record_success :
      ExecuteToolCommand J
      → J
      → Environment J
      → ToolExecutionResult J
      → Option ToolError
      → State J
      → State J × Answer J
  unfolding audit degrade reason_of
  record_success c input env result none s =
      (record s { audit_log = audit c input env result ∷ s.audit_log }, replied result)
  record_success c input env result (some e) s = degrade c input env (reason_of e) s

  settle :
      ExecuteToolCommand J → J → Environment J → Outcome J ToolError → State J → State J × Answer J
  unfolding record_success degrade
  settle c input env (returned output) s =
      let result = succeeded output (env.finished_at - env.started_at) in
      record_success c input env result env.success_audit_throws (record s {
        store = complete (idempotency_key c input) result ttl_seconds env.finished_at s.store;
      })
  settle c input env outcome s = degrade c input env (extract_reason outcome) s

  -- Stage 4 on: by the outcome of `begin`.
  reserve :
      ExecuteToolCommand J
      → J
      → ToolDefinition J
      → Environment J
      → IdempotencyOutcome (ToolExecutionResult J)
      → State J
      → State J × Answer J
  unfolding settle
  reserve c input definition env (done result) s = (s, replied result)
  reserve c input definition env pending s = (s, tool_call_in_flight (idempotency_key c input))
  reserve c input definition env proceed s =
      let retried = run_handler definition env in
      settle c input env retried.outcome
        (record s { handler_runs = s.handler_runs + retried.calls })

  -- Stage 3 on: by what the schema made of the arguments.
  authorize :
      ExecuteToolCommand J
      → ToolDefinition J
      → Environment J
      → Parsed J
      → State J
      → State J × Answer J
  unfolding reserve
  authorize c definition env (failure issues) s =
      (s, tool_input_invalid c.tool_name (format_zod_issues issues))
  authorize c definition env (success input) s =
      if not (includes c.tool_name c.allowed_tools)
      then (s, tool_not_authorized c.tool_name)
      else (let (store', outcome) =
            begin_key (idempotency_key c input) ttl_seconds env.started_at s.store in
          reserve c input definition env outcome (record s { store = store' }))

  dispatch :
      ExecuteToolCommand J
      → Option (ToolDefinition J)
      → Environment J
      → State J
      → State J × Answer J
  unfolding authorize
  dispatch c none env s = (s, tool_not_found c.tool_name)
  dispatch c (some definition) env s =
      authorize c definition env (definition.input_schema c.arguments) s

  unfoldable pub execute :
      ToolRegistry J → ExecuteToolCommand J → Environment J → State J → State J × Answer J
  unfolding dispatch
  execute tools c env s = dispatch c (lookup c.tool_name tools) env s
