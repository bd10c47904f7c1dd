-- ===== src/Lib.antt =====
-- A model of Textile's broker-core, the daemons that broker storage deals on Filecoin, and theorems about
-- it.
--
-- Clients ask brokerd to store data; packerd packs storage requests into batches, piecerd prepares the
-- batch's piece, auctioneerd auctions it to storage providers, and dealerd makes deals with the winners
-- and reports how each ends. Every step comes to brokerd as a call or a message, and brokerd keeps the
-- state of batches, storage requests and deals in one database. This library models brokerd's core,
-- packerd, piecerd and the auctions of auctioneerd.
--
-- Base: Boolean tests, lists, integers over the native numbers, tables as lists of rows, maps,
-- and the order of texts.
--
-- Effects: what Go functions do to the world. An action is a function of the database, the open
-- transaction, the messages sent, the identifiers drawn, the clock and a list of faults, and it returns
-- a value, an error or a panic. Each call of a statement, a commit, a publication and an identifier
-- takes one fault of the list, so a theorem for all worlds covers an error at every place. These calls
-- do not panic; what panics is in the code.
-- `deferred_tx` is CtxWithTx with the deferred FinishTxForCtx and `with_tx` is WithTx of
-- storeutil/txwrapper.go. A panic leaves the error nil under the deferred FinishTxForCtx, which commits;
-- WithTx rolls back. Effects.After, Keeps, Tx, Stays, Fails, Calm, Ends, Gives, Triple, SentTx and Errors reason about
-- actions.
--
-- Brokerd.Types and Codec: the data types of broker/broker.go and broker/storage_request.go, and the
-- texts of cids, addresses, URLs and peers, which libraries outside the repository read and print and
-- which are therefore parameters with their documented laws in `IsFaithful`, and in `ReadsWallets` and
-- `ReadsSources` of Msgbroker.
--
-- Brokerd.Schema: the tables of cmd/brokerd/store/migrations and the statements of
-- cmd/brokerd/store/internal/db.
--
-- Brokerd.Env: the configuration of cmd/brokerd/broker/options.go and the publications of
-- msgbroker/msgbroker.go that brokerd makes, with their checks.
--
-- Brokerd.Store: the operations of cmd/brokerd/store/store.go (Convert for rows, Read for queries, Create,
-- Move for BatchToAuctioning, BatchError and BatchSuccess, Deals for AddDeals, SaveDeals and
-- OperationExists).
--
-- Brokerd.Handlers and Epoch: the operations of cmd/brokerd/broker/broker.go (Requests for Create,
-- CreatePrepared, GetStorageRequestInfo, CreateNewBatch and GetBatch; Auction for startAuction and the
-- ends of a batch; Events for NewBatchPrepared, BatchAuctioned and BatchFinalizedDeal).
--
-- Brokerd.Calls: a daemon that answers any sequence of these calls. Brokerd.Mirror and Kept state
-- invariants of the database, Brokerd.Invariant walks through the code once for all of them, and
-- Calls.Holds, Results and Once draw the conclusions. RoundTrip, Winners, Reported and Epoch are about
-- single functions. Examples tries the theorems on a small deployment.
--
-- Packerd: the store of unprepared batches. Schema has the tables and statements of
-- cmd/packerd/store/internal/db, Store the operations of cmd/packerd/store/store.go, Packer
-- ReadyToBatch and pack of cmd/packerd/packer/packer.go, Calls any sequence of them, and Tally, Kept and
-- Lease the sizes of the batches. What the IPFS node says of the size of a cid's data is a parameter, and so is what
-- createDAGForBatch makes of a batch with it.
--
-- Brokerd.Unpinner: the unpin daemon of cmd/brokerd/broker/unpinner.go with cmd/brokerd/store/store_unpinner.go and
-- its statements; Jobs and Steps follow the unpin jobs through it.
--
-- Piecerd: the batches to prepare. Schema has the table and statements of cmd/piecerd/store/internal/db, Store
-- cmd/piecerd/store/store.go, Piecer cmd/piecerd/piecer/piecer.go, Calls any sequence of its steps, and Told what
-- holds throughout. What the libraries calculate for a piece is a parameter.
--
-- Auctioneerd: the auctions. Types has the data of auctioneer/auctioneer.go, Events the messages
-- (msgbroker/auction_events.go), Schema the tables and statements of
-- cmd/auctioneerd/auctioneer/queue/internal/db. Heap and Sorter are bidHeap and the sorter of
-- cmd/auctioneerd/auctioneer/sorter.go with what they use of container/heap, Search is sort.Search. Winners is
-- selectWinners, Bids the handling of bids, both of cmd/auctioneerd/auctioneer/auctioneer.go; Queue and Worker are
-- queue/queue.go, with the auctioneer's part of finalizing; Receipt is what msgbroker makes of a closed auction,
-- with its message, and Proposals the delivery of deal proposals, of which the bidders' answers are a parameter.
-- Random numbers are a parameter, so the theorems hold for all of them. The bids of an auction are a
-- list in the order in which they come in; the locks of the code make their handling serial.
--
-- Msgbroker: the receipt of messages, RegisterHandlers of msgbroker/msgbroker.go. Receipt and Sources have the
-- handlers up to the call of their listeners; Created is about those from packerd, Prepared from piecerd,
-- Batching from brokerd, and Accepted has what these share.
--
-- Loops are recursion on the list that they go through, so no fuel is needed; but the loops of the heap, of
-- sort.Search and of selectWinners are on fuel, which is the length of the heap and of the interval, and for
-- selectWinners the number of candidates and five. Out of fuel is a panic, and the theorems say that it
-- does not happen. Integers of the code that
-- are only compared, counted or copied are natural numbers; deal ids, prices and deadlines, which may be
-- negative, are integers. Overflow of 64-bit sums is not modelled.
--
-- Left out: metrics and logs; the text that annotates an error, of which the cause is kept; brokerd's
-- creation and update times, which none of its code here reads; foreign keys, which name rows that the
-- same transaction has read or written. The clock stands still within a call. The order in which Go goes through a map is
-- a parameter. Transactions are serial. The other daemons, what bidbots report to auctioneerd, the making of a
-- batch's DAG and brokerd's gRPC service are not modelled.
pub mod Auctioneerd
pub mod Base
pub mod Effects
pub mod Brokerd
pub mod Packerd
pub mod Piecerd
pub mod Msgbroker
