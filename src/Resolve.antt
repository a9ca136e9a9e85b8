-- ===== src/Resolve.antt =====
-- internal/resolve/resolve.go: from a shard key to the shards that serve it.
pub mod Active
pub mod Service
pub mod Serving
pub mod Histories
pub mod Success
pub mod Answers
