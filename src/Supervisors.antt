-- ===== src/Supervisors.antt =====
-- The three background loops of the server. A tick is one round; logs and metrics are left out.
pub mod Health
pub mod Seal
pub mod Retention
pub mod Histories
pub mod Cleaning
pub mod Sparing
pub mod Fresh
pub mod Still
pub mod Settled
