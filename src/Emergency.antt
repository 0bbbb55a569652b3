-- ===== src/Emergency.antt =====
-- apps/core-api/src/modules/emergency-rules
pub mod Rules
pub mod Defaults
pub mod Words
pub mod Matching
pub mod Shortage
pub mod OnCall
pub mod Escalation
