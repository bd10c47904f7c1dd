-- ===== src/Auctioneerd/Receipt.antt =====
-- What msgbroker makes of an auction-closed message on its receipt: closedAuctionFromPb and
-- auctionWinningBidsFromPb of msgbroker/msgbroker.go. The encoding in between is protobuf's.
use broker_core.Base.{
  ℕ, String, Bool, ◌≡◌, refl, false, List, [], ◌∷◌, nat_eq, str_eq, if◌then◌else◌, All,
}
use broker_core.Base.Int.{is_neg}
use broker_core.Effects.{Error, World, message, Result, ok, err, panicked}
use broker_core.Brokerd.Types.{Ident, AuctionStatus, ClosedAuction, WinningBid}
use broker_core.Auctioneerd.Types.{Auction}
use broker_core.Auctioneerd.Events.{Message, Only}
use broker_core.Auctioneerd.Schema.{Db}
use broker_core.Auctioneerd.Bids.{Env, PbBid}
use broker_core.Auctioneerd.Bids.Valid.{Valid}
use broker_core.Auctioneerd.Worker.{work}
use broker_core.Auctioneerd.Worker.Sent.{IsOf, Outcome-sent, work-Gives}
use broker_core.Auctioneerd.Worker.Closed.{Entry, Proper}

-- auctionWinningBidsFromPb
unfoldable pub winning_bids_from_pb : List (Ident × WinningBid) → Result (List (Ident × WinningBid))
winning_bids_from_pb [] = ok []
winning_bids_from_pb (w ∷ ws) =
    let rest = winning_bids_from_pb ws in
    if str_eq w.1.storage_provider_id ""
    then err (message "storage-provider-id is empty")
    else if is_neg w.1.price
    then err (message "price is negative")
    else if nat_eq w.1.start_epoch 0
    then err (message "start-epoch is zero")
    else elim rest [ ok us ↦ ok (w ∷ us) | err e ↦ err e | panicked ↦ panicked ]

-- pb.AuctionClosed_Status; an enumeration of protobuf has also the values that its program does not know.
pub data PbStatus : Type 0 where
  unspecified queued started finalized : PbStatus
  unknown : ℕ → PbStatus

-- auctionStatusToPb; the model's statuses are those for which it gives no error.
unfoldable pub auction_status_to_pb : AuctionStatus → PbStatus
auction_status_to_pb AuctionStatus.unspecified = PbStatus.unspecified
auction_status_to_pb AuctionStatus.queued = PbStatus.queued
auction_status_to_pb AuctionStatus.started = PbStatus.started
auction_status_to_pb AuctionStatus.finalized = PbStatus.finalized

-- auctionStatusFromPb
unfoldable pub auction_status_from_pb : PbStatus → AuctionStatus
auction_status_from_pb PbStatus.unspecified = AuctionStatus.unspecified
auction_status_from_pb PbStatus.queued = AuctionStatus.queued
auction_status_from_pb PbStatus.started = AuctionStatus.started
auction_status_from_pb PbStatus.finalized = AuctionStatus.finalized
auction_status_from_pb (PbStatus.unknown n) = AuctionStatus.unspecified

-- pb.AuctionClosed; its winning bids have the fields of WinningBid.
pub record PbAuctionClosed : Type 0 where
  pub id : String
  pub batch_id : String
  pub deal_duration : ℕ
  pub deal_replication : ℕ
  pub deal_verified : Bool
  pub status : PbStatus
  pub winning_bids : List (String × WinningBid)
  pub error : String

-- The message of closedAuctionToPb; the checks of the winning bids are check_winners of Worker.
unfoldable pub closed_auction_to_pb : ClosedAuction → PbAuctionClosed
closed_auction_to_pb a = record {
  id = a.id;
  batch_id = a.batch_id;
  deal_duration = a.deal_duration;
  deal_replication = a.deal_replication;
  deal_verified = a.deal_verified;
  status = auction_status_to_pb a.status;
  winning_bids = a.winning_bids;
  error = a.error_cause;
}

-- closedAuctionFromPb
unfoldable pub closed_auction_from_pb : PbAuctionClosed → Result ClosedAuction
closed_auction_from_pb c = elim (winning_bids_from_pb c.winning_bids) [
  | ok ws ↦
      if str_eq c.id ""
      then err (message "closed auction id is empty")
      else if str_eq c.batch_id ""
      then err (message "batch id is empty")
      else if nat_eq c.deal_duration 0
      then err (message "deal duration is zero")
      else if nat_eq c.deal_replication 0
      then err (message "deal replication is zero")
      else ok (record {
        id = c.id;
        batch_id = c.batch_id;
        deal_duration = c.deal_duration;
        deal_replication = c.deal_replication;
        deal_verified = c.deal_verified;
        status = auction_status_from_pb c.status;
        winning_bids = ws;
        error_cause = c.error;
      })
  | err e ↦ err e
  | panicked ↦ panicked
]

winning_bids_from_pb-Entry :
    (ws : List (Ident × WinningBid)) → All Entry ws → winning_bids_from_pb ws ≡ ok ws
unfolding winning_bids_from_pb
winning_bids_from_pb-Entry [] h = refl
winning_bids_from_pb-Entry (w ∷ ws) h =
    rw
      (
        winning_bids_from_pb,
        (h.0).provider,
        (h.0).price,
        (h.0).start_epoch,
        winning_bids_from_pb-Entry ws h.1,
      )
      refl

status-trip : (s : AuctionStatus) → auction_status_from_pb (auction_status_to_pb s) ≡ s
unfolding auction_status_from_pb auction_status_to_pb
status-trip AuctionStatus.unspecified = refl
status-trip AuctionStatus.queued = refl
status-trip AuctionStatus.started = refl
status-trip AuctionStatus.finalized = refl

-- What an auction must have for its deals, of which CreateAuction checks all.
pub record HasDeal (a : Auction) : Type 0 where
  pub id : str_eq a.id "" ≡ false
  pub batch_id : str_eq a.batch_id "" ≡ false
  pub deal_duration : nat_eq a.deal_duration 0 ≡ false
  pub deal_replication : nat_eq a.deal_replication 0 ≡ false

-- The receiver makes of the message the closed auction that it was made of.
abbrev pub IsReceived : ClosedAuction → Type 0
IsReceived c = closed_auction_from_pb (closed_auction_to_pb c) ≡ ok c

Proper-IsReceived :
    (a : Auction) → HasDeal a → (c : ClosedAuction) → Proper c → IsOf a c → IsReceived c
unfolding closed_auction_from_pb closed_auction_to_pb
Proper-IsReceived a d c p o =
    let i : str_eq c.id "" ≡ false = rw o.id d.id in
    let b : str_eq c.batch_id "" ≡ false = rw o.batch_id d.batch_id in
    let n : nat_eq c.deal_duration 0 ≡ false = rw o.deal_duration d.deal_duration in
    let r : nat_eq c.deal_replication 0 ≡ false = rw o.deal_replication d.deal_replication in
    rw
      (
        closed_auction_from_pb,
        closed_auction_to_pb,
        winning_bids_from_pb-Entry c.winning_bids p.entries,
        i,
        b,
        n,
        r,
        status-trip c.status,
      )
      refl

-- Whatever fails and whatever the bidders send, brokerd's receiver makes of the message of each closed
-- auction that one job of the worker publishes that closed auction again, with its status and its winners.
-- It is so if the texts of errors are not empty, it was so of the closed auctions before, the job's auction
-- has no invalid bids, and it has an id, a batch id, a deal duration and a deal replication, as CreateAuction
-- requires.
pub work-IsReceived :
    (env : Env) (incoming : List (String × PbBid)) (a : Auction) (w : World Db Message)
    → ((e : Error) → str_eq (env.text e) "" ≡ false)
    → All (λ e. Valid e.1) a.bids
    → HasDeal a
    → All (Only IsReceived) w.sent
    → All (Only IsReceived) (work env incoming a w).1.sent
work-IsReceived env incoming a w t v d h =
    Outcome-sent (Only IsReceived) (work env incoming a w)
      ((work-Gives IsReceived env incoming a (Proper-IsReceived a d) t v).at w h)
