-- ===== src/Conversation/Records.antt =====
-- domain/conversation.entity.ts of apps/voice-orchestrator/src/modules/conversation, and the messages of
-- ai-provider/domain/ai-provider.port.ts. A text that is looked into is the list of its code units; `J` is
-- the type of the values that are not, such as the arguments of a tool. A flag that is not there reads as
-- false, as in the source, and a time is in milliseconds.
use ethixweb_ai_csr.Common.{ℕ, Bool, List, Option, String}
use ethixweb_ai_csr.Conversation.States.{ConversationState}

abbrev pub Text : Type 0
Text = List ℕ

pub data AiRole : Type 0 where
  system user assistant tool : AiRole

pub record AiToolCallRequest (J : Type 0) : Type 0 where
  pub id : String
  pub name : String
  pub arguments : J

pub record AiMessage (J : Type 0) : Type 0 where
  pub role : AiRole
  pub content : Text
  pub tool_call_id : Option String
  pub tool_calls : List (AiToolCallRequest J)

pub data Speaker : Type 0 where
  caller agent : Speaker

pub record TranscriptTurn (J : Type 0) : Type 0 where
  pub turn_index : ℕ
  pub speaker : Speaker
  pub text : Text
  pub confidence : Option J
  pub offset_ms : ℕ
  pub at : ℕ

pub data EmergencyAction : Type 0 where
  forward_call priority_notify : EmergencyAction

pub record UndeliveredTransfer : Type 0 where
  pub severity : String
  pub action : String
  pub transfer_destination : Option String

pub record ServiceAreaCheck : Type 0 where
  pub zip : String
  pub in_service_area : Bool

pub record BusinessHoursCheck : Type 0 where
  pub is_open : Bool
  pub opens_at : Option String
  pub is_holiday : Bool

pub record Conversation (J : Type 0) : Type 0 where
  pub id : String
  pub tenant_id : String
  pub business_id : String
  pub call_id : String
  pub state : ConversationState
  pub system_prompt : Text
  pub llm_model : String
  pub messages : List (AiMessage J)
  pub transcript : List (TranscriptTurn J)
  pub lead_id : Option String
  pub capacity_reservation_id : Option String
  pub started_at : ℕ
  pub ended_at : Option ℕ
  pub end_reason : Option String
  pub caller_ani : Option String
  pub search_customer_ever_checked : Bool
  pub emergency_ever_checked : Bool
  pub strongest_emergency_action : Option EmergencyAction
  pub undelivered_transfer : Option UndeliveredTransfer
  pub last_emergency_checked_transcript : Option Text
  pub lead_ever_attempted : Bool
  pub customer_id : Option String
  pub customer_capture_attempted : Bool
  pub customer_details_on_file : Option Bool
  pub crm_integration_unavailable : Bool
  pub service_area_checked : Bool
  pub last_service_area_check : Option ServiceAreaCheck
  pub business_hours_checked : Bool
  pub last_business_hours_check : Option BusinessHoursCheck
  pub version : ℕ
