-- ===== src/Http.antt =====
-- internal/httpapi: requests, responses, and the handlers and middleware that turn one into the
-- other.
pub mod Dto
pub mod Answers
pub mod Requests
pub mod AuthHandler
pub mod TaskHandler
pub mod Health
pub mod Middleware
pub mod Hardening
pub mod Observation
pub mod Mux
pub mod Router
pub mod RateLimit
pub mod Gates
pub mod Replies
pub mod Statuses
pub mod Api
pub mod Sessions
