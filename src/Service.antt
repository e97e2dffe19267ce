-- ===== src/Service.antt =====
-- internal/service
pub mod Tasks
pub mod Tokens
pub mod RefreshTokens
pub mod Auth
pub mod Allows
pub mod Identity
