-- ===== src/Conversation/Tools/Gating.antt =====
-- `runTool` of handle-turn.use-case.ts: which requests are refused, and what becomes of the others.
use ethixweb_ai_csr.Common.{
  ◌≡◌, refl, arith, Bool, true, false, not, ◌&&◌, List, [], ◌∷◌, Option, none, some, String, any,
  codes, if◌then◌else◌, is_some, includes, str_eq, includes_codes,
}
use ethixweb_ai_csr.Conversation.Records.{Text, AiToolCallRequest, AiMessage, Conversation}
use ethixweb_ai_csr.Conversation.Window.{is_tool}
use ethixweb_ai_csr.Conversation.Json.{Json, get_text}
use ethixweb_ai_csr.Conversation.Tools.{Refusal, Gates, truthy, called}

abbrev soft_save_gates : List String
soft_save_gates =
    "name_not_read_back" ∷ "address_not_confirmed" ∷ "name_and_address_not_read_back"
    ∷ "callback_number_not_confirmed" ∷ "new_callback_number_not_read_back" ∷ []

-- What a gate says: the output that refuses the request, if it does, and the errors handed back so far.
abbrev pub Verdict : Type 0 → Type 0
Verdict O = Option (Json O) × List String

is_off_file : Option Bool → Bool
is_off_file none = false
is_off_file (some on_file) = not on_file

module _ {O : Type 0} where
  -- A refusal that can be waived is given once in a turn.
  refused_save : Option (Refusal O) → List String → Verdict O
  refused_save none gate_rejections = (none, gate_rejections)
  refused_save (some blocked) gate_rejections =
      if includes blocked.error soft_save_gates && includes blocked.error gate_rejections
      then (none, blocked.error ∷ gate_rejections)
      else (some blocked.output, blocked.error ∷ gate_rejections)

  or_refused : Bool → Json O → Verdict O → Verdict O
  or_refused refuses output (some earlier, gate_rejections) = (some earlier, gate_rejections)
  or_refused refuses output (none, gate_rejections) =
      (if refuses then some output else none, gate_rejections)

  refused_problem : Option (Refusal O) → List String → Verdict O
  refused_problem none gate_rejections = (none, gate_rejections)
  refused_problem (some blocked) gate_rejections =
      if includes blocked.error gate_rejections
      then (none, gate_rejections)
      else (some blocked.output, blocked.error ∷ gate_rejections)

  -- `String(message.content).includes(id)` of a tool's message.
  unfoldable pub mentions : String → AiMessage (Json O) → Bool
  unfolding includes_codes
  mentions id m = is_tool m.role && includes_codes m.content (codes id)

  unfoldable pub returned_by_a_tool : Conversation (Json O) → Option String → Bool
  unfolding mentions
  returned_by_a_tool conversation none = false
  returned_by_a_tool conversation (some id) =
      not (str_eq id "") && any (mentions id) conversation.messages

  pub lead_gate :
      Gates O → Conversation (Json O) → AiToolCallRequest (Json O) → List String → Verdict O
  unfolding refused_problem or_refused returned_by_a_tool is_off_file get_text
  lead_gate gates conversation call gate_rejections =
      or_refused
        (is_off_file conversation.customer_details_on_file
          && not (gates.is_hard_emergency conversation))
        gates.lead_needs_customer_details_error
        (or_refused
          (not (is_some (truthy conversation.customer_id))
            && not (returned_by_a_tool conversation (get_text "customer_id" call.arguments)))
          gates.customer_not_saved_error
          (refused_problem (gates.lead_problem_blocked_reason conversation) gate_rejections))

  customer_gate :
      Gates O → Conversation (Json O) → AiToolCallRequest (Json O) → Text → List String → Verdict O
  unfolding refused_save or_refused
  customer_gate gates conversation call current_turn_text gate_rejections =
      or_refused (gates.has_duplicate_name call.arguments) gates.duplicate_name_error (
        or_refused (not (gates.name_is_grounded conversation call)) gates.name_not_given_error (
          refused_save (gates.save_blocked_reason conversation call current_turn_text)
            gate_rejections))

  unfoldable pub gate :
      Gates O → Conversation (Json O) → AiToolCallRequest (Json O) → Text → List String → Verdict O
  unfolding lead_gate customer_gate
  gate gates conversation call current_turn_text gate_rejections =
      if called "createCustomer" call.name
      then customer_gate gates conversation call current_turn_text gate_rejections
      else if called "createLead" call.name
      then lead_gate gates conversation call gate_rejections
      else (none, gate_rejections)

  or_refused-none :
      (refuses : Bool) (output : Json O) (verdict : Verdict O)
      → (or_refused refuses output verdict).0 ≡ none
      → (refuses ≡ false) × (verdict.0 ≡ none)
  unfolding or_refused
  or_refused-none refuses output (some earlier, gate_rejections) h = absurd (ground (arith, h))
  or_refused-none true output (none, gate_rejections) h = absurd (ground (arith, h))
  or_refused-none false output (none, gate_rejections) h = (refl, refl)

  pub lead_gate-none :
      (gates : Gates O) (conversation : Conversation (Json O)) (call : AiToolCallRequest (Json O))
      (gate_rejections : List String)
      → (lead_gate gates conversation call gate_rejections).0 ≡ none
      → (truthy conversation.customer_id ≡ none
          → returned_by_a_tool conversation (get_text "customer_id" call.arguments) ≡ true)
        × (conversation.customer_details_on_file ≡ some false
            → gates.is_hard_emergency conversation ≡ true)
  unfolding lead_gate is_off_file
  lead_gate-none gates conversation call gate_rejections h =
      let (filed, h') = or_refused-none _ gates.lead_needs_customer_details_error _ h in
      let (known, h'') = or_refused-none _ gates.customer_not_saved_error _ h' in
      (λ e. ground (arith, rw e at known), λ e. ground (arith, rw e at filed))
