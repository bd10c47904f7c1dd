-- ===== src/Msgbroker.antt =====
-- What msgbroker does with the messages between the daemons on their receipt, RegisterHandlers of
-- msgbroker/msgbroker.go: the checks and the decoding before a listener is called. The encoding in
-- between is protobuf's; the checks of the senders stand with the daemons that publish.
pub mod Receipt
mod Accepted
mod Prepared
mod Created
mod Batching
mod Sources
mod Examples
