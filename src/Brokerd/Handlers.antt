-- ===== src/Brokerd/Handlers.antt =====
-- The operations of the broker (cmd/brokerd/broker/broker.go). Metrics and logs are left out.
pub mod Auction
pub mod Requests
pub mod Events
