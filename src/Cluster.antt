-- ===== src/Cluster.antt =====
-- pkg/cluster/cluster.go: the peers of a node, and the choice of the one that takes a request.
mod Examples
pub mod Addresses
pub mod Membership
pub mod Reachable
pub mod Routable
pub mod Discovery
pub mod Lookups
pub mod Peers
pub mod Selection
