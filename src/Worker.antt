-- ===== src/Worker.antt =====
-- pkg/execution/worker.go: the workers that take tasks from the scheduler.
mod Examples
pub mod Tasks
pub mod Loop
pub mod Outputs
pub mod Actions
pub mod Blobs
pub mod Framing
pub mod Persistent
pub mod Trees
pub mod Inputs
pub mod Cancelled
