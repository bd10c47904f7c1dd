-- ===== src/Brokerd/Types.antt =====
-- The data types of broker/broker.go and broker/storage_request.go.
--
-- Identifiers, addresses, URLs and peer-ids are texts: the code compares and prints them only. A `Cid`
-- is the byte string inside go-cid's `Cid`, and the empty one is `cid.Undef`. A `nil` pointer is
-- `none`. The creation and update times, which no code of the model reads, are left out.
use broker_core.Base.{ℕ, String, Bool, Option, List, not, str_eq}
use broker_core.Base.Int.{ℤ}

-- An identifier of a storage request, batch, auction, bid or operation.
abbrev pub Ident : Type 0
Ident = String

abbrev pub Cid : Type 0
Cid = String

abbrev pub Address : Type 0
Address = String

abbrev pub undef : Cid
undef = ""

-- cid.Cid.Defined
abbrev pub is_defined : Cid → Bool
is_defined c = not (str_eq c undef)

pub data BatchStatus : Type 0 where
  unknown preparing auctioning deal_making success error : BatchStatus

pub data RequestStatus : Type 0 where
  unknown batching preparing auctioning deal_making success error : RequestStatus

pub data AuctionStatus : Type 0 where
  unspecified queued started finalized : AuctionStatus

pub record CarIpfs : Type 0 where
  pub cid : Cid
  pub multiaddrs : List String

-- auction.Sources
pub record Sources : Type 0 where
  pub car_url : Option String
  pub car_ipfs : Option CarIpfs

pub record Batch : Type 0 where
  pub id : Ident
  pub status : BatchStatus
  pub rep_factor : ℕ
  pub deal_duration : ℕ
  pub sources : Sources
  pub disallow_rebatching : Bool
  pub fil_epoch_deadline : ℕ
  -- in nanoseconds, as a `time.Duration`
  pub proposal_start_offset : ℕ
  pub error_cause : String
  pub origin : String
  pub tags : List (String × String)
  pub providers : List Address
  pub payload_cid : Cid
  pub payload_size : Option ℕ
  pub piece_cid : Cid
  pub piece_size : ℕ

pub record StorageRequest : Type 0 where
  pub id : Ident
  pub data_cid : Cid
  pub status : RequestStatus
  pub origin : String
  -- empty while the request is in no batch
  pub batch_id : Ident

pub record StorageRequestDeal : Type 0 where
  pub storage_provider_id : String
  pub deal_id : ℤ
  pub expiration : ℕ

pub record StorageRequestInfo : Type 0 where
  pub storage_request : StorageRequest
  pub deals : List StorageRequestDeal

pub record PreparedCar : Type 0 where
  pub piece_cid : Cid
  pub piece_size : ℕ
  pub rep_factor : ℕ
  -- the Unix time in seconds, or none for the zero `time.Time`
  pub deadline : Option ℤ
  pub proposal_start_offset : ℤ
  pub sources : Sources

pub record BatchMetadata : Type 0 where
  pub origin : String
  pub tags : List (String × String)
  pub providers : List Address

pub record RemoteWallet : Type 0 where
  pub peer_id : String
  pub wallet_addr : Address
  pub auth_token : String
  pub multiaddrs : List String

pub record DataPreparationResult : Type 0 where
  pub piece_size : ℕ
  pub piece_cid : Cid

pub record WinningBid : Type 0 where
  pub storage_provider_id : String
  pub price : ℤ
  pub start_epoch : ℕ
  pub fast_retrieval : Bool

-- `winning_bids` is a Go map: its keys are distinct and its order is not part of the value.
pub record ClosedAuction : Type 0 where
  pub id : Ident
  pub batch_id : Ident
  pub deal_duration : ℕ
  pub deal_replication : ℕ
  pub deal_verified : Bool
  pub status : AuctionStatus
  pub winning_bids : List (Ident × WinningBid)
  pub error_cause : String

pub record FinalizedDeal : Type 0 where
  pub batch_id : Ident
  pub storage_provider_id : String
  pub deal_id : ℤ
  pub deal_expiration : ℕ
  pub error_cause : String
  pub auction_id : Ident
  pub bid_id : Ident
