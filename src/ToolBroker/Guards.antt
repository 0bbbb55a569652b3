-- ===== src/ToolBroker/Guards.antt =====
-- execute-tool.use-case.ts: stages 1 to 3.
use ethixweb_ai_csr.Common.{
  ◌≡◌, ◌≢◌, refl, ◌⊎◌, inl, inr, true, Option, none, some, String, arith, lookup, includes,
  Bool-cases,
}
use ethixweb_ai_csr.ToolBroker.{
  ToolDefinition, ToolRegistry, ToolExecutionResult, ExecuteToolCommand, Environment, State, Parsed,
  success, failure, replied, authorize, dispatch, execute,
}

module _ {J : Type 0} where
  -- A call that passes the guards: its tool, and its arguments as the schema reads them.
  pub record Admitted (tools : ToolRegistry J) (c : ExecuteToolCommand J)
      (definition : ToolDefinition J) (input : J) : Type 0 where
    pub registered : lookup c.tool_name tools ≡ some definition
    pub valid : definition.input_schema c.arguments ≡ success input
    pub allowed : includes c.tool_name c.allowed_tools ≡ true

module _ {J : Type 0} (hash_args : J → String) where
  authorize_admits :
      (c : ExecuteToolCommand J) (definition : ToolDefinition J) (env : Environment J)
      (p : Parsed J) (s : State J)
      → ((authorize hash_args c definition env p s).0 ≢ s)
        ⊎ ((result : ToolExecutionResult J) × ((authorize hash_args c definition env p s).1
              ≡ replied result))
      → (input : J) × (p ≡ success input) × (includes c.tool_name c.allowed_tools ≡ true)
  unfolding authorize
  authorize_admits c definition env (failure issues) s h =
      absurd (elim h [ inl ne ↦ ne refl | inr (result, e) ↦ ground arith ])
  authorize_admits c definition env (success input) s h =
      elim (Bool-cases (includes c.tool_name c.allowed_tools)) [
        | inl yes' ↦ (input, refl, yes')
        | inr no' ↦ absurd (elim h [ inl ne ↦ ne (ground arith) | inr (result, e) ↦ ground arith ])
      ]

  dispatch_admits :
      (tools : ToolRegistry J) (c : ExecuteToolCommand J) (found : Option (ToolDefinition J))
      (env : Environment J) (s : State J)
      → lookup c.tool_name tools ≡ found
      → ((dispatch hash_args c found env s).0 ≢ s)
        ⊎ ((result : ToolExecutionResult J) × ((dispatch hash_args c found env s).1
              ≡ replied result))
      → (definition : ToolDefinition J) × (input : J) × Admitted tools c definition input
  unfolding dispatch
  dispatch_admits tools c none env s e h =
      absurd (elim h [ inl ne ↦ ne refl | inr (result, e) ↦ ground arith ])
  dispatch_admits tools c (some definition) env s e h =
      let (input, valid, allowed) =
        authorize_admits c definition env (definition.input_schema c.arguments) s h in
      (definition, input, record { registered = e; valid = valid; allowed = allowed })

  -- A call that gets a reply, or changes anything (runs a handler, touches the idempotency store or
  -- writes to the audit log), is one of a registered tool, with arguments that the tool's schema
  -- accepts, and with the tool on its allowlist.
  pub execute_admits :
      (tools : ToolRegistry J) (c : ExecuteToolCommand J) (env : Environment J) (s : State J)
      → ((execute hash_args tools c env s).0 ≢ s)
        ⊎ ((result : ToolExecutionResult J) × ((execute hash_args tools c env s).1
              ≡ replied result))
      → (definition : ToolDefinition J) × (input : J) × Admitted tools c definition input
  unfolding execute
  execute_admits tools c env s h = dispatch_admits tools c (lookup c.tool_name tools) env s refl h
