-- ===== src/Tests.antt =====
-- Concrete runs: a platform, a small cluster, and the theorems at them.
pub mod Cluster
pub mod Buckets
pub mod Histories
pub mod Clients
pub mod Servers
pub mod Agents
