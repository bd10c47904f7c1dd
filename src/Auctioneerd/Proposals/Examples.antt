-- ===== src/Auctioneerd/Proposals/Examples.antt =====
-- The theorem on the calls about proposals, tried on a delivery that the bidder refuses and later ones.
use broker_core.Base.{true, false, none, some, List, [], ◌∷◌, refl}
use broker_core.Base.Int.{pos}
use broker_core.Effects.{World}
use broker_core.Brokerd.Types.{AuctionStatus}
use broker_core.Auctioneerd.Events.{Message}
use broker_core.Auctioneerd.Schema.{Db}
use broker_core.Auctioneerd.Queue.{Codec}
use broker_core.Auctioneerd.Proposals.{Answer}
use broker_core.Auctioneerd.Proposals.Delivered.{Backed}
use broker_core.Auctioneerd.Proposals.Calls.{Call, serve_calls, serve_calls-Backed}

abbrev codec : Codec
codec = record {
  is_cid = λ t. true;
  is_url = λ t. true;
  is_multiaddr = λ t. true;
  is_peer_id = λ t. true;
  is_uuid = λ t. false;
  valid_sources = λ s. true;
}

abbrev db : Db
db = record {
  auctions =
      record {
        id = "a";
        batch_id = "b";
        deal_size = 100;
        deal_duration = 1000;
        deal_replication = 1;
        deal_verified = true;
        fil_epoch_deadline = 9000;
        excluded_storage_providers = [];
        providers = [];
        payload_cid = "payload";
        car_url = "http://car";
        car_ipfs_cid = "";
        car_ipfs_addrs = [];
        status = AuctionStatus.finalized;
        error_cause = "";
        duration = pos 60;
        started_at = 5;
        updated_at = 5;
        client_address = "f0100";
      }
      ∷ [];
  bids =
      record {
        id = "bid";
        auction_id = "a";
        wallet_addr_sig = none;
        storage_provider_id = "f01";
        bidder_id = "peer";
        ask_price = pos 1;
        verified_ask_price = pos 1;
        start_epoch = 7;
        fast_retrieval = true;
        received_at = 5;
        won_at = some 6;
        proposal_cid = none;
        proposal_cid_delivered_at = none;
        proposal_cid_delivery_error = none;
        deal_confirmed_at = none;
        won_reason = none;
        deal_failed_at = none;
      }
      ∷ [];
}

abbrev world : World Db Message
world = record { db = db; snapshot = none; sent = []; drawn = 0; now = 1000; faults = [] }

-- The first proposal is refused, and later ones are not answered.
abbrev answer : List Message → Answer
answer [] = Answer.acknowledged
answer (m ∷ []) = Answer.refused "busy"
answer (m ∷ n ∷ ms) = Answer.unanswered

abbrev calls : List Call
calls =
    Call.deliver_proposal "a" "bid" "cid"
    ∷ Call.deliver_proposal "a" "bid" "cid"
    ∷ Call.deliver_boost_proposal "a" "bid" "uid"
    ∷ []

serve_calls-Backed_example : Backed (serve_calls codec answer (λ e. "failed") calls world).sent
serve_calls-Backed_example =
    serve_calls-Backed codec answer (λ e. "failed") (λ e. refl) calls world tt
