-- ===== src/Repository.antt =====
-- internal/repository: the interfaces, and their implementations on Postgres.
pub mod Interfaces
pub mod Users
pub mod Tasks
pub mod RefreshTokens
pub mod Consistency
pub mod Evolution
pub mod Allows
pub mod TokenOutcomes
