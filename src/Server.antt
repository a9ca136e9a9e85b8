-- ===== src/Server.antt =====
-- internal/grpcapi: what the server hands to its clients.
pub mod Access
pub mod Requests
pub mod Replies
pub mod Handlers
pub mod Guard
pub mod Reaches
pub mod Rollbacks
pub mod Configured
pub mod Notices
pub mod Outcomes
pub mod Announcements
pub mod Consistency
pub mod Failures
pub mod Topology
pub mod Watch
pub mod Delivery
pub mod Streams
pub mod Wakeups
