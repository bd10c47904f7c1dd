-- ===== src/Brokerd/Store.antt =====
-- The persistent store of brokerd (cmd/brokerd/store/store.go): its operations, each in the
-- transaction that it asks for. The proofs about them are in the modules below this one.
pub mod Convert
pub mod Read
pub mod Create
pub mod Move
pub mod Deals
