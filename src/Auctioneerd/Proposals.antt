-- ===== src/Auctioneerd/Proposals.antt =====
-- What the auctioneer does with the proposals of deals: DeliverProposal, DeliverBoostProposal and
-- MarkFinalizedDeal of cmd/auctioneerd/auctioneer/auctioneer.go, with what they use of queue/queue.go.
pub mod Delivered
pub mod Calls
mod Examples
use broker_core.Base.{
  String, Bool, true, false, Option, none, some, List, [], ◌∷◌, not, str_eq, if◌then◌else◌,
}
use broker_core.Base.Maps.{put}
use broker_core.Effects.{
  Error, message, not_found, unavailable, no_rows, Result, ok, err, panicked, pure, raise, gets,
  lift, done, require, attempt, exec, query, publish, logged, caught, with_tx, ◌>>=◌, ◌>>◌,
}
use broker_core.Brokerd.Types.{Ident, Cid, AuctionStatus, FinalizedDeal, undef, is_defined}
use broker_core.Auctioneerd.Types.{Auction, Bid}
use broker_core.Auctioneerd.Events.{Message}
use broker_core.Auctioneerd.Schema
use broker_core.Auctioneerd.Schema.{Db, AuctionRow, BidRow}
use broker_core.Auctioneerd.Winners.{Action}
use broker_core.Auctioneerd.Bids.{Command}
use broker_core.Auctioneerd.Queue.{Codec, auction_from_db, same_status}

-- A stored identifier is a deal uid or a cid.
unfoldable pub proposal_of : Codec → Option String → Action (Cid × String)
proposal_of k none = pure (undef, "")
proposal_of k (some t) =
    if k.is_uuid t
    then pure (undef, t)
    else require (k.is_cid t) (message "parsing proposal cid") >> pure (t, "")

abbrev pub text_of : Option String → String
text_of none = ""
text_of (some t) = t

-- bidFromDb
unfoldable pub bid_from_db : Codec → BidRow → Action Bid
bid_from_db k r = do
  require (k.is_peer_id r.bidder_id) (message "invalid bidder ID")
  p ← proposal_of k r.proposal_cid
  pure (record {
    id = r.id;
    storage_provider_id = r.storage_provider_id;
    wallet_addr_sig = r.wallet_addr_sig;
    bidder_id = r.bidder_id;
    ask_price = r.ask_price;
    verified_ask_price = r.verified_ask_price;
    start_epoch = r.start_epoch;
    fast_retrieval = r.fast_retrieval;
    received_at = r.received_at;
    won_at = r.won_at;
    proposal_cid = p.0;
    proposal_cid_delivered_at = r.proposal_cid_delivered_at;
    proposal_cid_delivery_error = text_of r.proposal_cid_delivery_error;
    deal_uid = p.1;
  })

-- The bid is put in the map of bids, and in that of winning bids if it has won.
abbrev pub with_bid : Bid → Auction → Auction
with_bid b a = record a {
  bids = put b.id b a.bids;
  winning_bids = elim b.won_at [
    | none ↦ a.winning_bids
    | some t ↦
        put b.id
          (record {
            bidder_id = b.bidder_id;
            proposal_cid = b.proposal_cid;
            deal_uid = b.deal_uid;
            winning_reason = "";
            error_cause = b.proposal_cid_delivery_error;
          })
          a.winning_bids
  ];
}

unfoldable pub with_bids : Codec → List BidRow → Auction → Action Auction
with_bids k [] a = pure a
with_bids k (r ∷ rs) a = do b ← bid_from_db k r; with_bids k rs (with_bid b a)

abbrev pub or_not_found : Result AuctionRow → Result AuctionRow
or_not_found (err no_rows) = err not_found
or_not_found r = r

-- Queue.GetAuction
unfoldable pub get_auction : Codec → Ident → Action Auction
get_auction k i = with_tx do
  row ← query (λ d. or_not_found (Schema.get_auction i d))
  a ← auction_from_db k row
  rows ← query (λ d. ok (Schema.get_auction_bids i d))
  with_bids k rows a

-- The bids of the map have distinct ids, so that the order does not matter.
unfoldable pub find_bid : Ident → List (Ident × Bid) → Result Bid
find_bid i [] = err (message "bid not found")
find_bid i (e ∷ es) = let rest = find_bid i es in if str_eq (e.1).id i then ok e.1 else rest

-- GetFinalizedAuctionBid
unfoldable pub get_finalized_auction_bid : Codec → Ident → Ident → Action Bid
get_finalized_auction_bid k i b = do
  a ← get_auction k i
  require (same_status a.status AuctionStatus.finalized) (message "auction is not finalized")
  require (str_eq a.error_cause "") (message "auction finalized with error")
  lift (find_bid b a.bids)

-- SetProposalCidDelivered
unfoldable pub set_proposal_cid_delivered : Ident → Ident → String → Command
set_proposal_cid_delivered i b c = do
  now ← gets (λ w. w.now)
  exec (Schema.update_proposal_cid i b c now)

-- SetProposalCidDeliveryError
unfoldable pub set_proposal_cid_delivery_error : Ident → Ident → String → Command
set_proposal_cid_delivery_error i b cause =
    exec (Schema.update_proposal_cid_delivery_error i b cause)

-- What follows PublishProposal: the delivery or its error is saved. `text` is the text of an error.
unfoldable pub save_delivery :
    (Error → String) → Ident → Ident → String → Result (Unit {0}) → Command
save_delivery text i b c (ok _) = logged (set_proposal_cid_delivered i b c)
save_delivery text i b c (err e) = logged (set_proposal_cid_delivery_error i b (text e))
save_delivery text i b c panicked = done

-- What comes of a message on a bidder's topic: an answer without an error, one with an error, or none in
-- time (ErrResponseNotReceived).
pub data Answer : Type 0 where
  acknowledged unanswered : Answer
  refused : String → Answer

-- PublishProposal returns no error where no answer comes: its `return err` returns the nil of Publish.
unfoldable pub answered : Answer → Command
answered Answer.acknowledged = done
answered Answer.unanswered = done
answered (Answer.refused e) = raise (message e)

-- PublishProposal; the topic is made and the message is published on it, each of which may fail. The
-- answer depends in any way on the messages so far.
unfoldable pub publish_proposal :
    (List Message → Answer) → Ident → Ident → String → String → Command
publish_proposal answer i b bidder c = do
  attempt
  publish (Message.proposal i b bidder c)
  a ← gets (λ w. answer w.sent)
  answered a

abbrev pub cause_of : (Error → String) → Result (Unit {0}) → String
cause_of text (ok _) = ""
cause_of text (err e) = text e
cause_of text panicked = text unavailable

unfoldable pub deliver :
    (List Message → Answer) → (Error → String) → Ident → Ident → Bid → Cid → Command
deliver answer text i b bid c = do
  published ← caught (publish_proposal answer i b bid.bidder_id c)
  save_delivery text i b c published
  logged (publish (Message.proposal_cid_delivered i bid.bidder_id b c (cause_of text published)))
  lift published

-- DeliverProposal; the identifier of PublishProposal is the text of the cid.
unfoldable pub deliver_proposal :
    Codec → (List Message → Answer) → (Error → String) → Ident → Ident → Cid → Command
deliver_proposal k answer text i b c = do
  require (is_defined c) (message "proposal cid is not defined")
  bid ← get_finalized_auction_bid k i b
  if is_defined bid.proposal_cid then done else deliver answer text i b bid c

unfoldable pub deliver_boost :
    (List Message → Answer) → (Error → String) → Ident → Ident → Bid → String → Command
deliver_boost answer text i b bid uid = do
  published ← caught (publish_proposal answer i b bid.bidder_id uid)
  save_delivery text i b uid published
  lift published

-- DeliverBoostProposal
unfoldable pub deliver_boost_proposal :
    Codec → (List Message → Answer) → (Error → String) → Ident → Ident → String → Command
deliver_boost_proposal k answer text i b uid = do
  require (not (str_eq uid "")) (message "dealUID is empty")
  bid ← get_finalized_auction_bid k i b
  if not (str_eq bid.deal_uid "") then done else deliver_boost answer text i b bid uid

-- MarkFinalizedDeal, with MarkDealAsFailed and MarkDealAsConfirmed
unfoldable pub mark_finalized_deal : FinalizedDeal → Command
mark_finalized_deal f = do
  now ← gets (λ w. w.now)
  if not (str_eq f.error_cause "")
      then exec (Schema.update_deal_failed_at f.auction_id f.bid_id now)
      else exec (Schema.update_deal_confirmed_at f.auction_id f.bid_id now)
