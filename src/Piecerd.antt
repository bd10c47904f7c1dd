-- ===== src/Piecerd.antt =====
-- The piecer daemon, cmd/piecerd.
pub mod Schema
pub mod Store
pub mod Piecer
pub mod Told
pub mod Calls
mod Examples
