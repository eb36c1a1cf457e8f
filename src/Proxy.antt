-- ===== src/Proxy.antt =====
-- pkg/proxy/proxy.go: the store that writes through to a remote one and reads through from it.
pub mod Store
pub mod Writes
pub mod Between
pub mod Reads
mod Examples
pub mod Actions
