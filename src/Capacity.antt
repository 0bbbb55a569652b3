-- ===== src/Capacity.antt =====
-- apps/voice-orchestrator/src/modules/capacity
pub mod Brochure
pub mod SortedSets
pub mod Admission
