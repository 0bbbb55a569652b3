-- ===== src/Examples.antt =====
-- Witnesses of the theorems at concrete inputs, and tests of the definitions.
mod Breaker
mod Retry
mod Relay
mod Idempotency
mod Capacity
mod ToolBroker
mod Calls
mod Leads
mod Tenants
mod Turns
mod CallSession
mod Conversation
mod Tools
mod Auth
mod Emergency
