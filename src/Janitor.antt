-- ===== src/Janitor.antt =====
-- pkg/janitor/janitor.go: the eviction of files from the local cache.
mod Examples
pub mod Cleanup
pub mod Debounce
pub mod Eviction
