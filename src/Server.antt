-- ===== src/Server.antt =====
-- pkg/server: the gRPC services.
mod Examples
pub mod Execution
pub mod Blobs
pub mod ByteStream
pub mod Routing
pub mod Waiting
pub mod Streams
pub mod ActionCache
pub mod Relays
