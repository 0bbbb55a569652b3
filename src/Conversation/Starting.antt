-- ===== src/Conversation/Starting.antt =====
-- application/start-conversation.use-case.ts of apps/voice-orchestrator/src/modules/conversation, on the
-- repository and on the admission of Capacity/Admission. What other services answer is in the environment.
-- The warm-up of the model, which nothing waits for, is left out, and so are waits.
pub mod Reservations
use mathlib.Core.List.{reverse}
use ethixweb_ai_csr.Common.{
  ℕ, Bool, true, false, ◌&&◌, ◌||◌, List, [], ◌∷◌, ◌++◌, Option, none, some, String, is_some,
  if◌then◌else◌, codes, ◌==◌, length, is_space, trim_start, or_default,
}
use ethixweb_ai_csr.Tenants.{
  TenantStatus, trial, active, past_due, suspended, expired, offboarding, archived,
}
use ethixweb_ai_csr.Capacity.SortedSets.{SortedSets}
use ethixweb_ai_csr.Capacity.Admission.{
  Limits, Reservation, granted, capacity_exceeded_tenant, capacity_exceeded_global, reserve,
  release,
}
use ethixweb_ai_csr.Conversation.States.{greeting}
use ethixweb_ai_csr.Conversation.Records.{Text, user, assistant, AiMessage, Conversation}
use ethixweb_ai_csr.Conversation.Repository.{Repository}

-- `SERVICEABLE_TENANT_STATUSES`
unfoldable pub serviceable : TenantStatus → Bool
serviceable trial = true
serviceable active = true
serviceable past_due = true
serviceable suspended = false
serviceable expired = false
serviceable offboarding = false
serviceable archived = false

is_dash : ℕ → Bool
is_dash c = c == 8212 || c == 8211 || c == 45

-- White space, a dash and white space from here on, behind a first white space.
dash_follows : Text → Bool
unfolding is_dash
dash_follows [] = false
dash_follows (c ∷ []) = false
dash_follows (c ∷ d ∷ cs) = (is_dash c && is_space d) || (is_space c && dash_follows (d ∷ cs))

-- `name.split(/\s+[—–-]\s+/)[0]`
before_dash : Text → Text
unfolding dash_follows
before_dash [] = []
before_dash (c ∷ cs) = if is_space c && dash_follows cs then [] else c ∷ before_dash cs

unfoldable pub company_name : Text → Text
unfolding before_dash trim_start
company_name business_name = reverse (trim_start (reverse (trim_start (before_dash business_name))))

-- `DEFAULT_GRACE_PERSONA.displayName`
abbrev pub display_name : Text
display_name = codes "Grace"

greet : Text → Text
greet [] = codes "Hi, this is " ++ (display_name ++ codes ". What can I help you with?")
greet (c ∷ business) =
    codes "Hi, this is "
    ++ (display_name ++ (codes ", at " ++ ((c ∷ business) ++ codes ". What can I help you with?")))

unfoldable pub build_opening_greeting : Option Text → Text
unfolding greet company_name
build_opening_greeting none = greet []
build_opening_greeting (some business_name) = greet (company_name business_name)

abbrev pub greeting_kickoff_message : Text
greeting_kickoff_message =
    codes "[The call has just connected. Greet the caller now, following your instructions.]"

pub record StartConversationCommand : Type 0 where
  pub tenant_id : String
  pub business_id : String
  pub call_id : String
  pub caller_ani : String

-- The customer that core-api resolves, the budget of the lookup running out, or its failure.
pub data Lookup : Type 0 where
  resolved : Option String → Lookup
  timed_out lookup_failed : Lookup

-- `RuntimeContext["existingCustomerMatch"]`, by the id of the customer.
pub data CustomerMatch : Type 0 where
  found : String → CustomerMatch
  not_found : CustomerMatch

-- What the use-case learns from elsewhere: `none` for an error means that there is none.
pub record Environment : Type 0 where
  pub status : TenantStatus
  pub limits : Limits
  pub business_name : Option Text
  pub reservation_id : String
  pub conversation_id : String
  pub now : ℕ
  pub call_error : Option String
  pub lookup : Lookup
  pub prompt : Option CustomerMatch → Option (Text × String)
  pub publish_error : Option String

matched : Lookup → Option CustomerMatch
matched (resolved none) = some not_found
matched (resolved (some id)) = some (found id)
matched timed_out = none
matched lookup_failed = none

-- `resolveCallerBeforeGreeting`
unfoldable pub resolve_caller_before_greeting : String → Lookup → Option CustomerMatch
unfolding matched
resolve_caller_before_greeting caller_ani lookup =
    if length (codes caller_ani) == 0 then none else matched lookup

customer_of : Option CustomerMatch → Option String
customer_of none = none
customer_of (some not_found) = none
customer_of (some (found id)) = some id

details_of : Option String → Option Bool
details_of none = none
details_of (some id) = some false

-- What `execute` returns or throws.
pub data Started (J : Type 0) : Type 0 where
  started : Conversation J → Text → Started J
  tenant_not_serviceable : String → TenantStatus → Started J
  refused : Reservation → Started J
  call_not_created prompt_failed publish_failed conversation_already_exists lost_cas_race :
      String → Started J

module _ {J : Type 0} where
  unfoldable pub new_conversation :
      StartConversationCommand → Environment → Option CustomerMatch → Text × String → Conversation J
  unfolding customer_of details_of
  new_conversation c env existing (system_prompt, llm_model) = record {
    id = env.conversation_id;
    tenant_id = c.tenant_id;
    business_id = c.business_id;
    call_id = c.call_id;
    state = greeting;
    system_prompt = system_prompt;
    llm_model = llm_model;
    messages = [];
    transcript = [];
    lead_id = none;
    capacity_reservation_id = some env.reservation_id;
    started_at = env.now;
    ended_at = none;
    end_reason = none;
    caller_ani = some c.caller_ani;
    search_customer_ever_checked = is_some existing;
    emergency_ever_checked = false;
    strongest_emergency_action = none;
    undelivered_transfer = none;
    last_emergency_checked_transcript = none;
    lead_ever_attempted = false;
    customer_id = customer_of existing;
    customer_capture_attempted = false;
    customer_details_on_file = details_of (customer_of existing);
    crm_integration_unavailable = false;
    service_area_checked = false;
    last_service_area_check = none;
    business_hours_checked = false;
    last_business_hours_check = none;
    version = 1;
  }

  says : Text → List (AiMessage J)
  says opening =
      record {
        role = user;
        content = greeting_kickoff_message;
        tool_call_id = none;
        tool_calls = [];
      }
      ∷ record { role = assistant; content = opening; tool_call_id = none; tool_calls = [] }
      ∷ []

  unfoldable pub greeted : Text → Conversation J → Conversation J
  unfolding says
  greeted opening c = record c { messages = c.messages ++ says opening }

module _ {J : Type 0} (repository : Repository J) where
  open repository use {State, create, save}

  published : Option String → Text → Conversation J → Started J
  published none opening saved = started saved opening
  published (some error) opening saved = publish_failed error

  after_save : Environment → Text → State × Option (Conversation J) → State × Started J
  unfolding published
  after_save env opening (s, none) = (s, lost_cas_race env.conversation_id)
  after_save env opening (s, some saved) = (s, published env.publish_error opening saved)

  after_create : Environment → Text → Conversation J → State × Bool → State × Started J
  unfolding after_save greeted
  after_create env opening c (s, false) = (s, conversation_already_exists c.call_id)
  after_create env opening c (s, true) = after_save env opening (save (greeted opening c) s)

  with_prompt :
      StartConversationCommand
      → Environment
      → Option CustomerMatch
      → Option (Text × String)
      → State
      → State × Started J
  unfolding after_create new_conversation build_opening_greeting
  with_prompt c env existing none s = (s, prompt_failed c.business_id)
  with_prompt c env existing (some assembled) s =
      let conversation = new_conversation c env existing assembled in
      after_create env (build_opening_greeting env.business_name) conversation
        (create conversation s)

  -- The body of the `try`: its errors come out as answers that are not `started`.
  try_start : StartConversationCommand → Environment → Option String → State → State × Started J
  unfolding with_prompt resolve_caller_before_greeting
  try_start c env (some error) s = (s, call_not_created error)
  try_start c env none s =
      let existing = resolve_caller_before_greeting c.caller_ani env.lookup in
      with_prompt c env existing (env.prompt existing) s

  module _ (sets : SortedSets) where
    -- The `catch`: an error releases the reservation.
    released_unless_started :
        StartConversationCommand
        → Environment
        → sets.State
        → State × Started J
        → State × sets.State × Started J
    released_unless_started c env a (s, started conversation opening) =
        (s, a, started conversation opening)
    released_unless_started c env a (s, error) =
        (s, release sets c.tenant_id env.reservation_id a, error)

    with_reservation :
        StartConversationCommand
        → Environment
        → State
        → sets.State × Reservation
        → State × sets.State × Started J
    unfolding try_start released_unless_started
    with_reservation c env s (a, granted reservation_id) =
        let env' = record env { reservation_id = reservation_id } in
        released_unless_started c env' a (try_start c env' env.call_error s)
    with_reservation c env s (a, error) = (s, a, refused error)

    -- `StartConversationUseCase.execute`
    unfoldable pub start_conversation :
        StartConversationCommand → Environment → State → sets.State → State × sets.State × Started J
    unfolding with_reservation serviceable
    start_conversation c env s a =
        if serviceable env.status
        then with_reservation c env s
            (reserve sets c.tenant_id env.reservation_id env.limits env.now a)
        else (s, a, tenant_not_serviceable c.tenant_id env.status)
