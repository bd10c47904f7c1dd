-- ===== src/Auctioneerd/Worker.antt =====
-- The queue's worker and its finalizer: worker and saveAndFinalizeAuction of queue/queue.go, with
-- finalizeAuction and toClosedAuction of auctioneer.go, and what msgbroker makes of the closed auction.
pub mod Closed
pub mod Sent
use broker_core.Base.{
  ℕ, String, Bool, true, false, Option, none, some, List, [], ◌∷◌, not, nat_eq, str_eq,
  if◌then◌else◌,
}
use broker_core.Base.Int.{ℤ, is_neg}
use broker_core.Base.Maps.{lookup}
use broker_core.Effects.{
  message, Result, ok, err, panicked, pure, gets, done, require, exec_returning, publish, logged,
  succeeds, caught, with_tx, ◌>>=◌, ◌>>◌,
}
use broker_core.Brokerd.Types
use broker_core.Brokerd.Types.{Ident, AuctionStatus, ClosedAuction}
use broker_core.Auctioneerd.Types.{Auction, Bid, WinningBid, price_of}
use broker_core.Auctioneerd.Events.{Message}
use broker_core.Auctioneerd.Schema
use broker_core.Auctioneerd.Winners.{Action}
use broker_core.Auctioneerd.Bids
use broker_core.Auctioneerd.Bids.{Command, Env, PbBid}
use broker_core.Auctioneerd.Queue
use broker_core.Auctioneerd.Queue.{save_and_transition_status, with_status}

-- The entry of a winning bid in the closed auction.
abbrev pub closed_bid : Auction → Bid → Types.WinningBid
closed_bid a b = record {
  storage_provider_id = b.storage_provider_id;
  price = price_of a b;
  start_epoch = b.start_epoch;
  fast_retrieval = b.fast_retrieval;
}

-- The loop of toClosedAuction; a winning bid that is not in the map of bids is left out.
unfoldable pub closed_bids : Auction → List (Ident × WinningBid) → List (Ident × Types.WinningBid)
closed_bids a [] = []
closed_bids a (w ∷ ws) =
    let rest = closed_bids a ws in
    elim (lookup w.0 a.bids) [ none ↦ rest | some b ↦ (w.0, closed_bid a b) ∷ rest ]

-- toClosedAuction
unfoldable pub to_closed_auction : Auction → ClosedAuction
to_closed_auction a = record {
  id = a.id;
  batch_id = a.batch_id;
  deal_duration = a.deal_duration;
  deal_replication = a.deal_replication;
  deal_verified = a.deal_verified;
  status = a.status;
  winning_bids = closed_bids a a.winning_bids;
  error_cause = a.error_cause;
}

-- The loop of auctionWinningBidsToPb.
unfoldable pub check_winners : List (Ident × Types.WinningBid) → Command
check_winners [] = done
check_winners (w ∷ ws) = do
  require (not (str_eq w.1.storage_provider_id "")) (message "storage-provider-id is empty")
  require (not (nat_eq w.1.start_epoch 0)) (message "start epoch is zero")
  check_winners ws

-- PublishMsgAuctionClosed
unfoldable pub publish_closed : ClosedAuction → Command
publish_closed c = do check_winners c.winning_bids; publish (Message.closed c)

abbrev pub is_finalized : AuctionStatus → Bool
is_finalized AuctionStatus.finalized = true
is_finalized _ = false

-- finalizeAuction
unfoldable pub finalize_auction : Auction → Command
finalize_auction a = do
  require (is_finalized a.status) (message "invalid final status")
  logged (publish_closed (to_closed_auction a))

-- The end of saveAndFinalizeAuction; after an error of the finalizer the auction is saved with the status
-- that it has.
unfoldable pub after_finalizer : Env → Auction → Result (Unit {0}) → Command
after_finalizer env a (ok _) = done
after_finalizer env a (err e) =
    logged (save_and_transition_status (record a { error_cause = env.text e }) a.status)
after_finalizer env a panicked = done

-- saveAndFinalizeAuction
unfoldable pub save_and_finalize_auction : Env → Auction → Command
save_and_finalize_auction env a = do
  saved ← succeeds (save_and_transition_status a AuctionStatus.finalized)
  let final : Auction = with_status a AuctionStatus.finalized
  if saved then finalize final else done
  where
    finalize : Auction → Command
    finalize final = do r ← caught (finalize_auction final); after_finalizer env final r

-- The statements on the winning bids; their errors are logged.
unfoldable pub save_winners : Ident → List (Ident × WinningBid) → ℕ → Command
save_winners i [] now = done
save_winners i (w ∷ ws) now = do
  logged (exec_returning (λ d. Schema.update_winning_bid i w.0 w.1.winning_reason now d) >> done)
  save_winners i ws now

abbrev pub winners_of : Result (List (Ident × WinningBid)) → List (Ident × WinningBid)
winners_of (ok ws) = ws
winners_of (err e) = []
winners_of panicked = []

abbrev pub with_outcome : Env → Auction → Result (List (Ident × WinningBid)) → Auction
with_outcome env a (ok ws) = a
with_outcome env a (err e) = record a { error_cause = env.text e }
with_outcome env a panicked = a

-- One job of the worker.
unfoldable pub work : Env → List (String × PbBid) → Auction → Command
work env incoming a = do
  r ← Bids.process_auction env a incoming
  now ← gets (λ w. w.now)
  logged (with_tx (save_winners a.id (winners_of r.1) now))
  save_and_finalize_auction env
      (record (with_outcome env r.0 r.1) { winning_bids = winners_of r.1 })
