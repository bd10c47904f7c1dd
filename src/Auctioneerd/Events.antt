-- ===== src/Auctioneerd/Events.antt =====
-- The messages of the auctioneer: the auction events of msgbroker/auction_events.go, the closed auction,
-- and what it tells the bidders (PublishWin and PublishProposal of libp2p_pubsub.go). A win that is not
-- acknowledged is a failed call; the answers to proposals are in Proposals.
use broker_core.Base.{ℕ, String, Bool, Option, List}
use broker_core.Base.Int.{ℤ}
use broker_core.Brokerd.Types.{Ident, Cid, AuctionStatus, Sources, ClosedAuction}
use broker_core.Auctioneerd.Types.{Auction, Bid}

-- pb.AuctionSummary
pub record Summary : Type 0 where
  pub id : Ident
  pub batch_id : Ident
  pub deal_verified : Bool
  pub excluded_storage_providers : List String
  pub status : AuctionStatus
  pub started_at : Option ℕ
  pub updated_at : Option ℕ
  pub duration : ℤ

-- pb.Bid, which has no bid id.
pub record BidEvent : Type 0 where
  pub storage_provider_id : String
  pub bidder_id : String
  pub ask_price : ℤ
  pub verified_ask_price : ℤ
  pub start_epoch : ℕ
  pub fast_retrieval : Bool
  pub received_at : ℕ

-- pb.Auction, as processAuction fills it.
pub record Announcement : Type 0 where
  pub id : Ident
  pub payload_cid : Cid
  pub deal_size : ℕ
  pub deal_duration : ℕ
  pub client_address : String
  pub fil_epoch_deadline : ℕ
  -- none if the auction is targeting providers
  pub sources : Option Sources
  pub ends_at : ℤ

pub data Message : Type 0 where
  -- a send on the queue's channel of jobs, which is no message to another program
  job : Auction → Message
  announced : Announcement → Message
  started : Summary → Message
  bid_received winner_selected winner_acked : Summary → BidEvent → Message
  proposal_cid_delivered : Ident → String → Ident → Cid → String → Message
  closed : ClosedAuction → Message
  win : Ident → Ident → String → Sources → Message
  proposal : Ident → Ident → String → String → Message

-- AuctionToPbSummary
abbrev pub summary : Auction → Summary
summary a = record {
  id = a.id;
  batch_id = a.batch_id;
  deal_verified = a.deal_verified;
  excluded_storage_providers = a.excluded_storage_providers;
  status = a.status;
  started_at = a.started_at;
  updated_at = a.updated_at;
  duration = a.duration;
}

-- bidToPb
abbrev pub bid_to_pb : Bid → BidEvent
bid_to_pb b = record {
  storage_provider_id = b.storage_provider_id;
  bidder_id = b.bidder_id;
  ask_price = b.ask_price;
  verified_ask_price = b.verified_ask_price;
  start_epoch = b.start_epoch;
  fast_retrieval = b.fast_retrieval;
  received_at = b.received_at;
}

-- `C` holds of the closed auctions; of other messages nothing is said.
abbrev pub Only : (ClosedAuction → Type 0) → Message → Type 0
Only C (Message.closed c) = C c
Only C _ = Unit
