-- ===== src/Scheduler.antt =====
-- pkg/scheduler/scheduler.go: operations, the task queue and the subscriber channels.
-- The pointers of Go are numbers: `heap` holds the operations that they point to, and a channel's
-- buffer holds pointers, so that a receiver sees the state at the time when it reads.
-- The identifier drawn by the uuid library and the clock are arguments.
pub mod State
pub mod Names
pub mod Naming
pub mod Updates
pub mod Queue
pub mod Subscriptions
pub mod Events
pub mod Entries
pub mod Counting
pub mod Delivery
mod Examples
