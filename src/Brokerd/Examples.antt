-- ===== src/Brokerd/Examples.antt =====
-- A small deployment of brokerd on which the theorems are tried: texts stand for themselves, and
-- identifiers are counted.
mod Mirrored
mod Once
mod Values
use broker_core.Base.{
  not, ℕ, String, Bool, true, false, Option, none, some, List, [], ◌∷◌, str_eq, nat_eq,
  if◌then◌else◌,
}
use broker_core.Base.Int.{pos}
use broker_core.Effects.{World}
use broker_core.Brokerd.Types.{
  Ident, BatchStatus, RequestStatus, AuctionStatus, ClosedAuction, WinningBid, FinalizedDeal, Batch,
  DataPreparationResult,
}
use broker_core.Brokerd.Codec.{Codec}
use broker_core.Brokerd.Schema.{BatchRow, RequestRow, DealRow, Db, empty_db}
use broker_core.Brokerd.Env.{Env, Message}

abbrev first : List String → String
first [] = ""
first (s ∷ ss) = s

abbrev pub plain : Codec
plain = record {
  cid_string = λ x. x;
  parse_cid = some;
  addr_string = λ a. a;
  parse_addr = some;
  is_id_addr = λ a. str_eq a "f0100";
  is_empty_addr = λ a. str_eq a "";
  mainnet_prefix = "f";
  url_string = λ u. u;
  parse_url = λ u. if str_eq u "" then none else some u;
  is_plain_url = λ u. not (str_eq u "");
  maddr_string = λ a. a;
  parse_maddr = some;
  peer_string = λ p. p;
  decode_peer = some;
  is_valid_peer = λ p. true;
  join = first;
  split = λ s. s ∷ [];
  contains_text = str_eq;
}

abbrev count : ℕ → Ident
count n = if nat_eq n 0 then "id0" else if nat_eq n 1 then "id1" else "id2"

abbrev pub env : Env
env = record {
  codec = plain;
  conf = record {
    deal_duration = 1051200;
    deal_replication = 1;
    default_wallet_addr = "f0100";
    verified_deals = true;
    default_batch_deadline = 3600000000000;
    default_proposal_start_offset = 172800000000000;
    unpinner_retry_delay = 60000000000;
  };
  id = count;
  order = λ n bids. bids;
}

abbrev pub world : Db → World Db Message
world d = record {
  db = d;
  snapshot = none;
  sent = [];
  drawn = 0;
  now = 1700000000000000000;
  faults = [];
}

-- A batch in auction with one request.
abbrev pub batch_row : BatchRow
batch_row = record {
  id = "b1";
  status = BatchStatus.auctioning;
  rep_factor = 1;
  deal_duration = 1051200;
  payload_cid = "payload";
  piece_cid = "piece";
  piece_size = 64;
  car_url = "http://car";
  car_ipfs_cid = "";
  car_ipfs_addrs = "";
  disallow_rebatching = true;
  fil_epoch_deadline = 0;
  error_cause = "";
  origin = "o";
  providers = [];
  payload_size = none;
  proposal_start_offset_seconds = 172800;
}

abbrev pub other_row : BatchRow
other_row = record batch_row { id = "b2" }

abbrev pub request_row : RequestRow
request_row = record {
  id = "r1";
  data_cid = "data";
  batch_id = some "b1";
  origin = "o";
  rebatch_count = 0;
  error_cause = "";
  status = RequestStatus.auctioning;
}

abbrev pub deal_row : DealRow
deal_row = record {
  batch_id = "b1";
  auction_id = "a1";
  bid_id = "x1";
  storage_provider_id = "f01";
  deal_id = pos 0;
  deal_expiration = 0;
  error_cause = "";
}

abbrev pub db : Db
db = record empty_db {
  batches = batch_row ∷ other_row ∷ [];
  requests = request_row ∷ [];
  deals = deal_row ∷ [];
}

abbrev pub bid : WinningBid
bid = record {
  storage_provider_id = "f01";
  price = pos 10;
  start_epoch = 2000;
  fast_retrieval = true;
}

abbrev pub won : ClosedAuction
won = record {
  id = "a1";
  batch_id = "b1";
  deal_duration = 1051200;
  deal_replication = 1;
  deal_verified = true;
  status = AuctionStatus.finalized;
  winning_bids = ("x1", bid) ∷ ("x2", record bid { storage_provider_id = "f02" }) ∷ [];
  error_cause = "";
}

abbrev pub lost : ClosedAuction
lost = record won { winning_bids = []; error_cause = "no bids" }

abbrev pub final_deal : FinalizedDeal
final_deal = record {
  batch_id = "b1";
  storage_provider_id = "f01";
  deal_id = pos 7;
  deal_expiration = 3000;
  error_cause = "";
  auction_id = "a1";
  bid_id = "x1";
}

-- A batch with an IPFS source, a tag and a provider.
abbrev pub batch : Batch
batch = record {
  id = "b9";
  status = BatchStatus.auctioning;
  rep_factor = 2;
  deal_duration = 1051200;
  sources = record {
    car_url = some "http://car";
    car_ipfs = some (record { cid = "car"; multiaddrs = "/ip4/1.2.3.4" ∷ [] });
  };
  disallow_rebatching = true;
  fil_epoch_deadline = 5000;
  proposal_start_offset = 172800000000000;
  error_cause = "";
  origin = "o";
  tags = ("key", "value") ∷ [];
  providers = "f0100" ∷ [];
  payload_cid = "payload";
  payload_size = none;
  piece_cid = "";
  piece_size = 0;
}

abbrev pub preparation : DataPreparationResult
preparation = record { piece_size = 64; piece_cid = "piece" }
