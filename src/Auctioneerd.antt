-- ===== src/Auctioneerd.antt =====
-- The auctioneer daemon, cmd/auctioneerd.
pub mod Heap
pub mod Types
pub mod Events
pub mod Schema
pub mod Search
pub mod Sorter
pub mod Winners
pub mod Bids
pub mod Queue
pub mod Worker
pub mod Proposals
pub mod Receipt
mod Examples
