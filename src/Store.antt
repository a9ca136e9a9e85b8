-- ===== src/Store.antt =====
-- internal/store/store.go: the metadata database and the transactions on it.
pub mod Shard
pub mod Db
pub mod Queries
pub mod Register
pub mod Rotate
pub mod Machine
pub mod Table
pub mod Moves
pub mod Ensures
pub mod Changes
pub mod Conformance
pub mod Lifecycle
pub mod Topology
pub mod Config
pub mod Promote
pub mod History
pub mod Constraints
pub mod Outcome
pub mod Rotation
pub mod Described
pub mod Cache
pub mod Readback
pub mod Quiet
pub mod Reload
pub mod Promotion
