-- ===== src/Storage.antt =====
-- pkg/storage: the digests that name blobs, and the stores.
pub mod Digests
pub mod Files
pub mod Held
pub mod Local
pub mod Links
pub mod Atomicity
pub mod Histories
mod Examples
pub mod Actions
pub mod Recorded
pub mod Downloads
pub mod Remote
