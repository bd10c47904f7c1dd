-- ===== src/Brokerd.antt =====
-- brokerd, the daemon that tracks storage requests and batches (cmd/brokerd).
pub mod Types
pub mod Codec
pub mod Schema
pub mod Env
pub mod Store
pub mod Epoch
pub mod Handlers
pub mod Mirror
pub mod Invariant
pub mod Kept
pub mod Calls
pub mod Unpinner
pub mod RoundTrip
pub mod Winners
pub mod Reported
mod Examples
