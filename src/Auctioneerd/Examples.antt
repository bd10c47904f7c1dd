-- ===== src/Auctioneerd/Examples.antt =====
-- The theorems on auctions, tried on an auction of one replica with two bids.
use broker_core.Base.{
  ◌≡◌, ◌≤◌, refl, ℕ, String, Bool, true, false, Option, none, some, List, [], ◌∷◌, contains, length,
  All, arith, inl,
}
use broker_core.Base.Int.{pos}
use broker_core.Base.Rows.{count_rows}
use broker_core.Effects.{World, ok}
use broker_core.Brokerd.Types.{Ident, AuctionStatus}
use broker_core.Auctioneerd.Types.{Auction, Bid, WinningBid}
use broker_core.Auctioneerd.Events.{Message, Only}
use broker_core.Auctioneerd.Schema.{Db}
use broker_core.Auctioneerd.Search.{sort, is_targeted}
use broker_core.Auctioneerd.Search.Agrees.{is_targeted-contains}
use broker_core.Auctioneerd.Winners.{Market, select_winners, current_fil_epoch}
use broker_core.Auctioneerd.Winners.Eligible.{able, has_id}
use broker_core.Auctioneerd.Winners.Elected.{Elected, select_winners-Elected, select_winners-enough}
use broker_core.Auctioneerd.Bids.{Env, PbBid}
use broker_core.Auctioneerd.Worker.{work}
use broker_core.Auctioneerd.Worker.Closed.{Proper}
use broker_core.Auctioneerd.Worker.Sent.{work-Proper}
use broker_core.Auctioneerd.Receipt.{HasDeal, IsReceived, work-IsReceived}

abbrev market : Market
market = record {
  coin = λ n. n;
  failure_rates = λ p. 0;
  winning_rates = λ p. 0;
  on_chain_epoches = λ p. 0;
}

abbrev auction : Auction
auction = record {
  id = "auction";
  batch_id = "batch";
  payload_cid = "cid";
  deal_size = 100;
  deal_duration = 200;
  deal_replication = 1;
  deal_verified = true;
  fil_epoch_deadline = 0;
  excluded_storage_providers = [];
  providers = "f02" ∷ "f01" ∷ [];
  sources = record { car_url = some "http://car"; car_ipfs = none };
  client_address = "f1client";
  status = AuctionStatus.started;
  bids = [];
  winning_bids = [];
  started_at = some 1;
  updated_at = some 1;
  duration = pos 10;
  error_cause = "";
}

abbrev bid : String → Bid
bid p = record {
  id = p;
  storage_provider_id = p;
  wallet_addr_sig = some "sig";
  bidder_id = p;
  ask_price = pos 5;
  verified_ask_price = pos 0;
  start_epoch = 7;
  fast_retrieval = true;
  received_at = 3;
  won_at = none;
  proposal_cid = "";
  proposal_cid_delivered_at = none;
  proposal_cid_delivery_error = "";
  deal_uid = "";
}

abbrev bids : List Bid
bids = bid "f01" ∷ bid "f03" ∷ []

abbrev world : World Db Message
world = record {
  db = record { auctions = []; bids = [] };
  snapshot = none;
  sent = [];
  drawn = 0;
  now = 1700000000000000000;
  faults = [];
}

select_winners-Elected_example :
    Elected market
      (current_fil_epoch world.now)
      auction
      bids
      (select_winners market auction bids world).0
select_winners-Elected_example = select_winners-Elected market auction bids world

able-bids : able market (current_fil_epoch world.now) auction bids ≡ bid "f01" ∷ []
unfolding broker_core.Base.Rows.select broker_core.Auctioneerd.Winners.Eligible.eligible contains
able-bids = refl

one_each :
    (i : Ident) → count_rows (has_id i) (able market (current_fil_epoch world.now) auction bids) ≤ 1
unfolding count_rows
one_each i = rw able-bids (ground arith)

select_winners-enough_example :
    (ws : List (Ident × WinningBid)) × ((select_winners market auction bids world).0 ≡ ok ws)
    × (length ws ≡ 1)
select_winners-enough_example =
    select_winners-enough market auction bids world refl (omega arith) one_each
      (rw able-bids (omega arith))

is_targeted-contains_example :
    is_targeted (sort ("f02" ∷ "f01" ∷ [])) "f01" ≡ contains ("f02" ∷ "f01" ∷ []) "f01"
is_targeted-contains_example = is_targeted-contains ("f02" ∷ "f01" ∷ []) "f01"

abbrev env : Env
env = record {
  market = market;
  verify_bidder = λ s p b. some true;
  is_peer_id = λ p. true;
  id = λ n. "bid";
  ends_at = λ now d. d;
  text = λ e. "failed";
}

abbrev incoming : List (String × PbBid)
incoming =
    (
      "peer",
      record {
        storage_provider_id = "f01";
        wallet_addr_sig = some "sig";
        ask_price = pos 5;
        verified_ask_price = pos 0;
        start_epoch = 7;
        fast_retrieval = true;
      },
    )
    ∷ []

work-Proper_example : All (Only Proper) (work env incoming auction world).1.sent
work-Proper_example = work-Proper env incoming auction world (λ e. refl) tt tt

auction-HasDeal : HasDeal auction
auction-HasDeal = record {
  id = refl;
  batch_id = refl;
  deal_duration = refl;
  deal_replication = refl;
}

work-IsReceived_example : All (Only IsReceived) (work env incoming auction world).1.sent
work-IsReceived_example =
    work-IsReceived env incoming auction world (λ e. refl) tt auction-HasDeal tt
