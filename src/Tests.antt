-- ===== src/Tests.antt =====
-- A process to try the services on: libraries that are easy to follow, a database that never fails
-- and serves no other client, and clocks that count the effects.
mod Ordering
mod Sample
mod Accounts
mod Tasks
mod Identity
mod RateLimits
mod Seeding
mod Requests
mod Web
mod Processes
mod Routes
mod Boards
mod Api
