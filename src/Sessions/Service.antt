-- ===== src/Sessions/Service.antt =====
-- What the session store promises to dispatchers and senders.
pub mod Fairness
pub mod Total
pub mod Batches
pub mod Senders
pub mod Checkpoints
pub mod Rows
pub mod Outcomes
pub mod Retention
