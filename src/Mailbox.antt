-- ===== src/Mailbox.antt =====
-- A conversation's mailbox: InMemoryMailbox of entourage/mailbox.py.
pub mod Types
pub mod Queue
pub mod Purge
mod Loops
pub mod Valid
pub mod Run
pub mod Stays
pub mod Delivery
pub mod Senders
pub mod Counts
pub mod Waiting
pub mod Retention
mod Tests
