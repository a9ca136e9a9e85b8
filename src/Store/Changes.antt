-- ===== src/Store/Changes.antt =====
-- Every transaction of internal/store/store.go changes the database as Store/Moves.antt says.
mod Rows
mod Single
mod Double
mod Added
pub use Rows.{Change-map, Change-map-map}
pub use Single.*
pub use Double.*
pub use Added.*
