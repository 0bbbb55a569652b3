-- ===== src/Conversation/Turns/Additions.antt =====
-- handle-turn.use-case.ts: what a turn puts on a conversation that others have stored meanwhile.
use ethixweb_ai_csr.Common.{◌≡◌, refl, List, ◌++◌, Option, none, some, suc, ◌||◌}
use ethixweb_ai_csr.Conversation.Records.{AiMessage, TranscriptTurn, Conversation}
use ethixweb_ai_csr.Conversation.Repository.{next_version}
use ethixweb_ai_csr.Conversation.Repository.Evolution.{SameCall}
use ethixweb_ai_csr.Conversation.Turns.{merged, first_some}

-- Of two values that may be missing, the first is taken where it is there.
abbrev pub Prefers {ℓ} : {A : Type ℓ} → Option A → Option A → Option A → Type ℓ
Prefers (some a) other taken = taken ≡ some a
Prefers none other taken = taken ≡ other

first_some-Prefers {ℓ} : {A : Type ℓ} (a b : Option A) → Prefers a b (first_some a b)
first_some-Prefers none b = refl
first_some-Prefers (some a) b = refl

module _ {J : Type 0} where
  -- What is stored when a turn is put on a conversation that others have stored meanwhile: theirs, with the
  -- entries and the messages of the turn behind those that are there. What the turn has found out itself
  -- takes precedence, and a flag that either has set is set.
  pub record Adds (own fresh : Conversation J) (entries : List (TranscriptTurn J))
      (messages : List (AiMessage J)) (saved : Conversation J) : Type 0 where
    pub transcript : saved.transcript ≡ fresh.transcript ++ entries
    pub messages_kept : saved.messages ≡ fresh.messages ++ messages
    pub version : saved.version ≡ suc fresh.version
    pub state : saved.state ≡ fresh.state
    pub same : SameCall fresh saved
    pub system_prompt : saved.system_prompt ≡ fresh.system_prompt
    pub llm_model : saved.llm_model ≡ fresh.llm_model
    pub ended_at : saved.ended_at ≡ fresh.ended_at
    pub end_reason : saved.end_reason ≡ fresh.end_reason
    pub caller_ani : saved.caller_ani ≡ fresh.caller_ani
    pub strongest_action : saved.strongest_emergency_action ≡ fresh.strongest_emergency_action
    pub undelivered : saved.undelivered_transfer ≡ fresh.undelivered_transfer
    pub on_file : saved.customer_details_on_file ≡ fresh.customer_details_on_file
    pub lead_id : Prefers own.lead_id fresh.lead_id saved.lead_id
    pub customer_id : Prefers own.customer_id fresh.customer_id saved.customer_id
    pub last_service_area :
        Prefers own.last_service_area_check fresh.last_service_area_check
          saved.last_service_area_check
    pub last_business_hours :
        Prefers own.last_business_hours_check fresh.last_business_hours_check
          saved.last_business_hours_check
    pub last_emergency_checked :
        Prefers own.last_emergency_checked_transcript fresh.last_emergency_checked_transcript
          saved.last_emergency_checked_transcript
    pub capture_attempted :
        saved.customer_capture_attempted
        ≡ (own.customer_capture_attempted || fresh.customer_capture_attempted)
    pub crm_unavailable :
        saved.crm_integration_unavailable
        ≡ (own.crm_integration_unavailable || fresh.crm_integration_unavailable)
    pub lead_attempted :
        saved.lead_ever_attempted ≡ (own.lead_ever_attempted || fresh.lead_ever_attempted)
    pub emergency_checked :
        saved.emergency_ever_checked ≡ (own.emergency_ever_checked || fresh.emergency_ever_checked)
    pub customer_searched :
        saved.search_customer_ever_checked
        ≡ (own.search_customer_ever_checked || fresh.search_customer_ever_checked)
    pub area_checked :
        saved.service_area_checked ≡ (own.service_area_checked || fresh.service_area_checked)
    pub hours_checked :
        saved.business_hours_checked ≡ (own.business_hours_checked || fresh.business_hours_checked)

  pub merged-Adds :
      (own fresh : Conversation J) (entries : List (TranscriptTurn J))
      (messages : List (AiMessage J))
      → Adds own fresh entries messages (next_version (merged own fresh entries messages))
  unfolding merged next_version
  merged-Adds own fresh entries messages = record {
    transcript = refl;
    messages_kept = refl;
    version = refl;
    state = refl;
    same = (refl, refl, refl, refl, refl, refl);
    system_prompt = refl;
    llm_model = refl;
    ended_at = refl;
    end_reason = refl;
    caller_ani = refl;
    strongest_action = refl;
    undelivered = refl;
    on_file = refl;
    lead_id = first_some-Prefers own.lead_id fresh.lead_id;
    customer_id = first_some-Prefers own.customer_id fresh.customer_id;
    last_service_area =
        first_some-Prefers own.last_service_area_check fresh.last_service_area_check;
    last_business_hours =
        first_some-Prefers own.last_business_hours_check fresh.last_business_hours_check;
    last_emergency_checked =
        first_some-Prefers own.last_emergency_checked_transcript
          fresh.last_emergency_checked_transcript;
    capture_attempted = refl;
    crm_unavailable = refl;
    lead_attempted = refl;
    emergency_checked = refl;
    customer_searched = refl;
    area_checked = refl;
    hours_checked = refl;
  }
