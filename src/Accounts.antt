-- ===== src/Accounts.antt =====
-- The account domain (backend/v2): rate limits, sessions, idempotency, mail, and the services that
-- create, verify, reset, sign in and delete an account.
pub mod Rows
pub mod Service
pub mod RateLimit
pub mod Sessions
pub mod Idempotency
pub mod Outbox
pub mod Primitives
pub mod Tokens
pub mod Users
pub mod Verification
pub mod Invitations
pub mod Passwords
pub mod Challenges
pub mod Login
pub mod Deletion
pub mod Changes
pub mod Steps
pub mod Actions
