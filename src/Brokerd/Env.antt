-- ===== src/Brokerd/Env.antt =====
-- What brokerd runs in: its configuration (cmd/brokerd/broker/options.go), the functions of other
-- modules, the identifiers that newID draws, and the messages that it publishes
-- (msgbroker/msgbroker.go).
use broker_core.Base.{
  map, ℕ, String, Bool, true, false, Option, none, some, List, [], ◌∷◌, nat_eq, not, str_eq,
}
use broker_core.Base.Int.{ℤ}
use broker_core.Effects.{Exec, Done, message, require, publish, done, ◌>>◌}
use broker_core.Brokerd.Types.{Ident, Cid, Address, Sources, RemoteWallet, WinningBid, is_defined}
use broker_core.Brokerd.Codec.{Codec}
use broker_core.Brokerd.Schema.{Db}

-- The fields of `config` that the operations read. Durations are in nanoseconds.
pub record Config : Type 0 where
  pub deal_duration : ℕ
  pub deal_replication : ℕ
  pub default_wallet_addr : Address
  pub verified_deals : Bool
  pub default_batch_deadline : ℕ
  pub default_proposal_start_offset : ℕ
  pub unpinner_retry_delay : ℕ

-- `id n` is the n-th identifier drawn; `order n` is the order in which the n-th `range` statement of a
-- call goes through the map of winning bids.
pub record Env : Type 0 where
  pub codec : Codec
  pub conf : Config
  pub id : ℕ → Ident
  pub order : ℕ → List (Ident × WinningBid) → List (Ident × WinningBid)

pub record ReadyToBatchData : Type 0 where
  pub storage_request_id : Ident
  pub data_cid : Cid
  pub origin : String

pub record ReadyToAuction : Type 0 where
  pub id : Ident
  pub batch_id : Ident
  pub payload_cid : Cid
  pub deal_size : ℕ
  pub deal_duration : ℕ
  pub deal_replication : ℕ
  pub deal_verified : Bool
  pub excluded_storage_providers : List String
  pub fil_epoch_deadline : ℕ
  pub sources : Sources
  pub client_address : String
  pub providers : List String

-- dealer.Proposal
pub record Proposal : Type 0 where
  pub storage_provider_id : String
  pub price_per_gib_per_epoch : ℤ
  pub start_epoch : ℕ
  pub verified : Bool
  pub fast_retrieval : Bool
  pub auction_id : Ident
  pub bid_id : Ident

-- dealer.AuctionDeals
pub record AuctionDeals : Type 0 where
  pub id : Ident
  pub batch_id : Ident
  pub payload_cid : Cid
  pub piece_cid : Cid
  pub piece_size : ℕ
  pub duration : ℕ
  pub proposals : List Proposal
  pub remote_wallet : Option RemoteWallet
  pub car_url : String

-- pb.RemoteWallet, with the texts of the peer id, the address and the multiaddresses
pub record PbWallet : Type 0 where
  pub peer_id : String
  pub auth_token : String
  pub wallet_addr : String
  pub multiaddrs : List String

-- pb.ReadyToCreateDeals; its cids are their bytes, and its proposals have the fields of dealer.Proposal.
pub record PbReadyToCreateDeals : Type 0 where
  pub id : String
  pub batch_id : String
  pub payload_cid : Cid
  pub piece_cid : Cid
  pub piece_size : ℕ
  pub duration : ℕ
  pub proposals : List Proposal
  pub remote_wallet : Option PbWallet
  pub car_url : String

pub data Message : Type 0 where
  ready_to_batch : List ReadyToBatchData → Message
  ready_to_auction : ReadyToAuction → Message
  ready_to_create_deals : PbReadyToCreateDeals → Message

abbrev pub Action : Type 0 → Type 0
Action A = Exec Db Message A

abbrev pub Command : Type 0
Command = Done Db Message

-- Whether a text is not empty.
abbrev pub filled : String → Bool
filled s = not (str_eq s "")

-- The loop of PublishMsgReadyToBatch.
unfoldable pub check_ready_to_batch : List ReadyToBatchData → Command
check_ready_to_batch [] = done
check_ready_to_batch (x ∷ xs) = do
  require (filled x.storage_request_id) (message "storage-request-id is empty")
  require (is_defined x.data_cid) (message "data-cid is undefined")
  require (filled x.origin) (message "origin is empty")
  check_ready_to_batch xs

abbrev pub is_empty {ℓ} : {A : Type ℓ} → List A → Bool
is_empty [] = true
is_empty (x ∷ xs) = false

unfoldable pub publish_ready_to_batch : List ReadyToBatchData → Command
unfolding check_ready_to_batch
publish_ready_to_batch xs = do
  require (not (is_empty xs)) (message "data cids is empty")
  check_ready_to_batch xs
  publish (ready_to_batch xs)

-- The loop of PublishMsgReadyToCreateDeals.
unfoldable pub check_proposals : List Proposal → Command
check_proposals [] = done
check_proposals (t ∷ ts) = do
  require (filled t.storage_provider_id) (message "storage-provider-id is empty")
  require (not (nat_eq t.start_epoch 0)) (message "start-epoch is zero")
  require (filled t.auction_id) (message "auction-id is empty")
  require (filled t.bid_id) (message "bid-id is empty")
  check_proposals ts

unfoldable pub check_wallet : Codec → Option RemoteWallet → Command
check_wallet c none = done
check_wallet c (some rw) = do
  require (c.is_valid_peer rw.peer_id) (message "remote wallet peer-id is invalid")
  require (filled rw.auth_token) (message "remote wallet auth-token is empty")
  require (not (c.is_empty_addr rw.wallet_addr)) (message "remote wallet wallet address is empty")

unfoldable pub wallet_to_pb : Codec → Option RemoteWallet → Option PbWallet
wallet_to_pb c none = none
wallet_to_pb c (some r) = some (record {
  peer_id = c.peer_string r.peer_id;
  auth_token = r.auth_token;
  wallet_addr = c.addr_string r.wallet_addr;
  multiaddrs = map c.maddr_string r.multiaddrs;
})

-- The message that PublishMsgReadyToCreateDeals makes.
unfoldable pub deals_to_pb : Codec → AuctionDeals → PbReadyToCreateDeals
deals_to_pb c ads = record {
  id = ads.id;
  batch_id = ads.batch_id;
  payload_cid = ads.payload_cid;
  piece_cid = ads.piece_cid;
  piece_size = ads.piece_size;
  duration = ads.duration;
  proposals = ads.proposals;
  remote_wallet = wallet_to_pb c ads.remote_wallet;
  car_url = ads.car_url;
}

unfoldable pub publish_ready_to_create_deals : Codec → AuctionDeals → Command
unfolding check_proposals check_wallet
publish_ready_to_create_deals c ads = do
  check_proposals ads.proposals
  check_wallet c ads.remote_wallet
  publish (ready_to_create_deals (deals_to_pb c ads))
