-- ===== src/Client.antt =====
-- pkg/client: the resolution of a key from a topology that the client holds.
pub mod Local
pub mod Messages
pub mod Agreement
pub mod Reads
pub mod Remote
pub mod Fallback
pub mod Refresh
