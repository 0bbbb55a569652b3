-- ===== src/Conversation.antt =====
-- apps/voice-orchestrator/src/modules/conversation: the state of a call and the use-cases that change it.
pub mod States
pub mod Records
pub mod Window
pub mod Repository
pub mod Changes
pub mod Admission
pub mod Ending
pub mod Turns
pub mod Starting
pub mod Segments
pub mod Speech
pub mod Json
pub mod Tools
pub mod ToolLoop
