-- ===== src/Examples/ToolBroker.antt =====
-- execute-tool.use-case.ts with one tool that echoes a number, called three times in a retry.
use ethixweb_ai_csr.Common.{
  ℕ, ◌+◌, ◌≡◌, refl, inr, [], ◌∷◌, none, some, String, arith, lookup, includes, ltb, if◌then◌else◌,
}
use ethixweb_ai_csr.Kernel.Retry.{
  resolved, rejected, returned, exhausted, with_retry, retry_loop, attempt_round,
}
use ethixweb_ai_csr.Kernel.Idempotency.{live}
use ethixweb_ai_csr.ToolBroker.{
  ToolError, other_error, Reason, success, ToolDefinition, ToolRegistry, succeeded, degraded,
  ExecuteToolCommand, AuditEntry, Environment, State, replied, is_retryable, run_handler,
  with_timeout, idempotency_key, execute, timed_out_after,
}
use ethixweb_ai_csr.ToolBroker.Guards.{Admitted, execute_admits}
use ethixweb_ai_csr.ToolBroker.Executions.{
  execute_twice, execute_audit_throws, execute_degraded, EndsWith,
}

abbrev echo : ToolDefinition ℕ
echo = record {
  name = "echo";
  version = "1";
  description = "Says it back.";
  json_schema = 0;
  input_schema = λ n. success n;
  timeout_ms = 100;
  max_attempts = 3;
}

abbrev tools : ToolRegistry ℕ
tools = ("echo", echo) ∷ []

abbrev hash_args : ℕ → String
hash_args n = "digest"

abbrev call : ExecuteToolCommand ℕ
call = record {
  tenant_id = "t";
  business_id = "b";
  call_id = "c";
  tool_name = "echo";
  arguments = 7;
  allowed_tools = "echo" ∷ [];
}

-- The handler fails once, and then answers in time.
abbrev second_time : Environment ℕ
second_time = record {
  handler = λ n. if ltb n 2 then (rejected (other_error "busy"), 5) else (resolved 7, 5);
  random = λ n. record { num = 1; den = 2 };
  started_at = 10;
  finished_at = 20;
  success_audit_throws = none;
  degraded_audit_throws = none;
}

-- The handler always answers too late.
abbrev too_late : Environment ℕ
too_late = record second_time { handler = λ n. (resolved 7, 200) }

-- The first audit write throws.
abbrev audit_down : Environment ℕ
audit_down = record second_time { success_audit_throws = some (other_error "no audit") }

abbrev again : Environment ℕ
again = record second_time { started_at = 30; finished_at = 40 }

abbrev start : State ℕ
start = record { store = []; audit_log = []; handler_runs = 0 }

call-Admitted : Admitted tools call echo 7
unfolding lookup includes
call-Admitted = record { registered = refl; valid = refl; allowed = refl }

call_free : live (idempotency_key hash_args call 7) 10 start.store ≡ none
unfolding live lookup
call_free = refl

second_time_returns : (run_handler echo second_time).outcome ≡ returned 7
unfolding run_handler with_retry retry_loop attempt_round with_timeout is_retryable
second_time_returns = refl

audit_down_returns : (run_handler echo audit_down).outcome ≡ returned 7
unfolding run_handler with_retry retry_loop attempt_round with_timeout is_retryable
audit_down_returns = refl

too_late_exhausts :
    (run_handler echo too_late).outcome ≡ exhausted 3 (some (ToolError.tool_timeout_error 100))
unfolding run_handler with_retry retry_loop attempt_round with_timeout is_retryable
too_late_exhausts = refl

execute_twice_example :
    ((execute hash_args tools call second_time start).1 ≡ replied (succeeded 7 10))
    × ((execute hash_args tools call second_time start).0.handler_runs
        ≡ 0 + (run_handler echo second_time).calls)
    × (execute hash_args tools call again (execute hash_args tools call second_time start).0
        ≡ ((execute hash_args tools call second_time start).0, replied (succeeded 7 10)))
execute_twice_example =
    execute_twice hash_args tools call echo 7 7 second_time again start call-Admitted call_free
      second_time_returns refl (omega arith)

execute_audit_throws_example :
    ((execute hash_args tools call audit_down start).1
      ≡ replied (degraded (Reason.message "no audit") 10))
    × (execute hash_args tools call again (execute hash_args tools call audit_down start).0
        ≡ ((execute hash_args tools call audit_down start).0, replied (succeeded 7 10)))
execute_audit_throws_example =
    execute_audit_throws hash_args tools call echo 7 7 audit_down again start call-Admitted
      call_free audit_down_returns refl refl (omega arith)

too_late-EndsWith : EndsWith (run_handler echo too_late).outcome (timed_out_after 100)
too_late-EndsWith = rw too_late_exhausts refl

execute_degraded_example :
    ((execute hash_args tools call too_late start).1 ≡ replied (degraded (timed_out_after 100) 10))
    × (live
          (idempotency_key hash_args call 7)
          50
          (execute hash_args tools call too_late start).0.store
        ≡ none)
    × ((entry : AuditEntry ℕ) × ((execute hash_args tools call too_late start).0.audit_log
          ≡ entry ∷ [])
        × (entry.result ≡ degraded (timed_out_after 100) 10)
        × (entry.idempotency_key ≡ idempotency_key hash_args call 7))
execute_degraded_example =
    execute_degraded hash_args tools call echo 7 too_late start 50 (timed_out_after 100)
      call-Admitted call_free too_late-EndsWith refl (omega arith)

execute_twice_reply : (execute hash_args tools call second_time start).1 ≡ replied (succeeded 7 10)
execute_twice_reply =
    (execute_twice hash_args tools call echo 7 7 second_time again start call-Admitted call_free
      second_time_returns refl (omega arith)).0

execute_admits_example :
    (definition : ToolDefinition ℕ) × (input : ℕ) × Admitted tools call definition input
execute_admits_example =
    execute_admits hash_args tools call second_time start
      (inr (succeeded 7 10, execute_twice_reply))
