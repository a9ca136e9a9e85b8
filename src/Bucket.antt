-- ===== src/Bucket.antt =====
-- internal/bucket: bucket ids, and the routing of shard keys.
pub mod Platform
pub mod Decimal
pub mod Calendar
pub mod Spec
pub mod Key
pub mod Id
pub mod Routing
pub mod Window
pub mod Eviction
pub mod Partition
pub mod Width
