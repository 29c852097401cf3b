-- ===== src/Executables.antt =====
-- Registered Python activations over the session store (entourage/executables.py): the context that
-- a handler stages its effects in, the registry of a dispatcher, and its loop of claims and commits.
pub mod Types
pub mod Context
pub mod Registry
pub mod Dispatch
pub mod Watch
mod Tests
