-- ===== src/Packerd.antt =====
-- packerd's store of unprepared batches (cmd/packerd) and the message that fills it.
pub mod Schema
pub mod Store
pub mod Packer
pub mod Tally
pub mod Kept
pub mod Lease
pub mod Calls
mod Examples
