-- ===== src/Queue.antt =====
-- internal/jobqueue: which jobs run, and when. The proofs are in the modules below.
pub mod Classifier
pub mod Monitor
pub mod Dispatcher
pub mod Scheduler
pub mod Rules
pub mod Limits
pub mod Exclusion
pub mod Progress
pub mod Mixing
pub mod Separation
pub mod System
pub mod Drain
pub mod Retention
pub mod Refresh
pub mod Termination
pub mod Moves
