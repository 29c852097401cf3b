-- ===== src/Sessions.antt =====
-- Durable sessions over one SQLite file (entourage/sessions.py, with the shared types of
-- entourage/session_backend.py). Tables are lists of rows in rowid order; a transaction is a
-- function from the store to a result, and one that raises gives no store back: it rolls back.
pub mod Types
pub mod Table
pub mod Ready
pub mod Mailing
pub mod Claim
pub mod Checkpoint
pub mod Purge
pub mod Valid
pub mod Run
pub mod Service
mod Tests
