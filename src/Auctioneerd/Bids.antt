-- ===== src/Auctioneerd/Bids.antt =====
-- The bids of a running auction: bidsHandler, validateBid and acceptBid of
-- cmd/auctioneerd/auctioneer/auctioneer.go and addBid of queue/queue.go, and processAuction, which closes
-- the auction. The bids are taken one after the other; the code locks what its handlers share.
pub mod Valid
use broker_core.Base.{
  ℕ, zero, suc, ◌+◌, String, Bool, true, false, Option, none, some, List, [], ◌∷◌, ◌++◌, ◌||◌, ◌&&◌,
  not, ltb, nat_eq, str_eq, if◌then◌else◌, contains,
}
use broker_core.Base.Int.{ℤ, is_neg}
use broker_core.Base.Maps.{put}
use broker_core.Effects.{
  Error, message, unavailable, Result, ok, err, panicked, Exec, Done, pure, raise, gets, lift, done,
  require, insert, publish, logged, succeeds, caught, new_id, ◌>>=◌, ◌>>◌,
}
use broker_core.Brokerd.Types.{Ident, AuctionStatus, undef}
use broker_core.Auctioneerd.Types.{Auction, Bid, WinningBid}
use broker_core.Auctioneerd.Events.{Message, Announcement, summary, bid_to_pb}
use broker_core.Auctioneerd.Schema
use broker_core.Auctioneerd.Schema.{Db, BidRow}
use broker_core.Auctioneerd.Winners
use broker_core.Auctioneerd.Winners.{Market, Action, is_nil}

abbrev pub Command : Type 0
Command = Done Db Message

-- `verify_bidder` is VerifyBidder of the Filecoin client, none being its error, `is_peer_id` is
-- peer.ID.Validate without an error, `id` gives the identifiers of newID, `ends_at` is the time after a
-- duration, and `text` the text of an error.
pub record Env : Type 0 where
  pub market : Market
  pub verify_bidder : Option String → String → String → Option Bool
  pub is_peer_id : String → Bool
  pub id : ℕ → Ident
  pub ends_at : ℕ → ℤ → ℤ
  pub text : Error → String

-- pb.Bid, as a bidder sends it.
pub record PbBid : Type 0 where
  pub storage_provider_id : String
  pub wallet_addr_sig : Option String
  pub ask_price : ℤ
  pub verified_ask_price : ℤ
  pub start_epoch : ℕ
  pub fast_retrieval : Bool

abbrev pub is_some : {A : Type 0} → Option A → Bool
is_some none = false
is_some (some a) = true

abbrev pub verified_or_error : Option Bool → Result Bool
verified_or_error none = err unavailable
verified_or_error (some b) = ok b

-- validateBid
unfoldable pub validate_bid : Env → Bid → Command
validate_bid env b = do
  require (not (str_eq b.storage_provider_id "")) (message "storage provider ID must not be empty")
  require (is_some b.wallet_addr_sig) (message "wallet address signature must not be empty")
  require (env.is_peer_id b.bidder_id) (message "bidder id is not valid")
  require (not (is_neg b.ask_price)) (message "ask price must be greater than or equal to zero")
  require (not (is_neg b.verified_ask_price))
      (message "verified ask price must be greater than or equal to zero")
  require (not (nat_eq b.start_epoch 0)) (message "start epoch must be greater than zero")
  verified ←
      lift
        (verified_or_error (env.verify_bidder b.wallet_addr_sig b.bidder_id b.storage_provider_id))
  require verified (message "invalid miner address or signature")

-- acceptBid
unfoldable pub accept_bid : Auction → Bid → Bool
accept_bid a b =
    not (
      ltb 0 a.fil_epoch_deadline
      && (nat_eq b.start_epoch 0 || ltb a.fil_epoch_deadline b.start_epoch))
    && not (contains a.excluded_storage_providers b.storage_provider_id)

-- A bid with its validation, the first part of bidsHandler.
unfoldable pub checked_bid : Env → String → PbBid → Action Bid
checked_bid env sender pb = do
  id ← new_id env.id
  now ← gets (λ w. w.now)
  let bid : Bid = record {
    id = id;
    storage_provider_id = pb.storage_provider_id;
    wallet_addr_sig = pb.wallet_addr_sig;
    bidder_id = sender;
    ask_price = pb.ask_price;
    verified_ask_price = pb.verified_ask_price;
    start_epoch = pb.start_epoch;
    fast_retrieval = pb.fast_retrieval;
    received_at = now;
    won_at = none;
    proposal_cid = undef;
    proposal_cid_delivered_at = none;
    proposal_cid_delivery_error = "";
    deal_uid = "";
  }
  validate_bid env bid
  pure bid

-- `shared` is the auction behind the pointer that the queue's worker and addBid share; `bidders` and
-- `bids` are the variables of processAuction.
pub record Running : Type 0 where
  pub shared : Auction
  pub bidders : List String
  pub bids : List Bid

abbrev pub is_started : AuctionStatus → Bool
is_started AuctionStatus.started = true
is_started _ = false

abbrev pub bid_row : Ident → Bid → BidRow
bid_row i b = record {
  id = b.id;
  auction_id = i;
  wallet_addr_sig = b.wallet_addr_sig;
  storage_provider_id = b.storage_provider_id;
  bidder_id = b.bidder_id;
  ask_price = b.ask_price;
  verified_ask_price = b.verified_ask_price;
  start_epoch = b.start_epoch;
  fast_retrieval = b.fast_retrieval;
  received_at = b.received_at;
  won_at = none;
  proposal_cid = none;
  proposal_cid_delivered_at = none;
  proposal_cid_delivery_error = none;
  deal_confirmed_at = none;
  won_reason = none;
  deal_failed_at = none;
}

abbrev pub mapped : Bid → Running → Running
mapped b r = record r { shared = record (r.shared) { bids = put b.id b r.shared.bids } }

-- addBid, and the bid's place among the bids if there is no error.
unfoldable pub add_bid : Bid → Running → Action Running
add_bid b r = if is_started r.shared.status then saved else pure r
  where
    saved : Action Running
    saved = do
      added ← succeeds (insert (λ d. Schema.create_bid (bid_row r.shared.id b) d))
      pure (if added then record (mapped b r) { bids = r.bids ++ b ∷ [] } else mapped b r)

-- The second part of bidsHandler, for a valid bid.
unfoldable pub receive : Auction → Running → Bid → Action Running
receive a r b = do
  logged (publish (Message.bid_received (summary a) (bid_to_pb b)))
  if accept_bid a b && not (contains r.bidders b.bidder_id)
      then add_bid b (record r { bidders = b.bidder_id ∷ r.bidders })
      else pure r

-- bidsHandler; its error goes to the bidder.
unfoldable pub handle_bid : Env → Auction → Running → String → PbBid → Action Running
handle_bid env a r sender pb = do
  checked ← caught (checked_bid env sender pb)
  elim checked [ ok b ↦ receive a r b | err e ↦ pure r | panicked ↦ pure r ]

unfoldable pub handle_bids : Env → Auction → List (String × PbBid) → Running → Action Running
handle_bids env a [] r = pure r
handle_bids env a (x ∷ xs) r = do r' ← handle_bid env a r x.0 x.1; handle_bids env a xs r'

abbrev pub announcement : Env → Auction → ℕ → Announcement
announcement env a now = record {
  id = a.id;
  payload_cid = a.payload_cid;
  deal_size = a.deal_size;
  deal_duration = a.deal_duration;
  client_address = a.client_address;
  fil_epoch_deadline = a.fil_epoch_deadline;
  sources = if is_nil a.providers then some a.sources else none;
  ends_at = env.ends_at now a.duration;
}

-- processAuction, with the bids that come in until the auction's end: the shared auction, and the winners
-- or the error.
unfoldable pub process_auction :
    Env → Auction → List (String × PbBid) → Action (Auction × Result (List (Ident × WinningBid)))
process_auction env a incoming = do
  logged (publish (Message.started (summary a)))
  now ← gets (λ w. w.now)
  announced ← succeeds (publish (Message.announced (announcement env a now)))
  if announced then run else pure (a, err unavailable)
  where
    run : Action (Auction × Result (List (Ident × WinningBid)))
    run = do
      r ← handle_bids env a incoming (record { shared = a; bidders = []; bids = [] })
      winners ← caught (Winners.select_winners env.market a r.bids)
      pure (r.shared, winners)
