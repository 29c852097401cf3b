-- ===== src/Chat.antt =====
-- The chat agent: one model call per activation, its tools, and delegation through pipes
-- (entourage/turn.py and entourage/deferred_tools.py).
pub mod Types
pub mod Schemas
pub mod Tools
pub mod Inbox
pub mod Calls
pub mod Turn
pub mod Keeps
pub mod Parks
mod Tests
