-- ===== src/Auth.antt =====
-- apps/core-api/src/modules/auth
pub mod Roles
pub mod RefreshTokens
pub mod Login
pub mod Registration
