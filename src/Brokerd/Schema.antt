-- ===== src/Brokerd/Schema.antt =====
-- brokerd's database (cmd/brokerd/store/migrations) and its statements
-- (cmd/brokerd/store/internal/db, generated from cmd/brokerd/store/queries).
--
-- A table is the list of its rows in insertion order. Primary keys are checked where the code inserts.
-- Foreign keys name the batch that the same transaction has created or read, so they always hold and
-- are not checked.
pub mod Statements
use broker_core.Base.{ℕ, String, Bool, Option, List, []}
use broker_core.Base.Int.{ℤ}
use broker_core.Brokerd.Types.{Ident, BatchStatus, RequestStatus}

pub record BatchRow : Type 0 where
  pub id : Ident
  pub status : BatchStatus
  pub rep_factor : ℕ
  pub deal_duration : ℕ
  pub payload_cid : String
  pub piece_cid : String
  pub piece_size : ℕ
  pub car_url : String
  pub car_ipfs_cid : String
  pub car_ipfs_addrs : String
  pub disallow_rebatching : Bool
  pub fil_epoch_deadline : ℕ
  pub error_cause : String
  pub origin : String
  pub providers : List String
  pub payload_size : Option ℕ
  pub proposal_start_offset_seconds : ℕ

pub record RequestRow : Type 0 where
  pub id : Ident
  pub data_cid : String
  pub batch_id : Option Ident
  pub origin : String
  pub rebatch_count : ℕ
  pub error_cause : String
  pub status : RequestStatus

pub record DealRow : Type 0 where
  pub batch_id : Ident
  pub auction_id : Ident
  pub bid_id : Ident
  pub storage_provider_id : String
  pub deal_id : ℤ
  pub deal_expiration : ℕ
  pub error_cause : String

-- store.UnpinType
pub data UnpinType : Type 0 where
  batch data_cid : UnpinType

-- Times are in nanoseconds.
pub record UnpinJobRow : Type 0 where
  pub id : Ident
  pub executing : Bool
  pub cid : String
  pub kind : UnpinType
  pub ready_at : ℕ
  pub updated_at : ℕ

pub record TagRow : Type 0 where
  pub batch_id : Ident
  pub key : String
  pub value : String

pub record ManifestRow : Type 0 where
  pub batch_id : Ident
  pub manifest : List ℕ

pub record WalletRow : Type 0 where
  pub batch_id : Ident
  pub peer_id : String
  pub auth_token : String
  pub wallet_addr : String
  pub multiaddrs : List String

pub record Db : Type 0 where
  pub batches : List BatchRow
  pub requests : List RequestRow
  pub deals : List DealRow
  pub operations : List Ident
  pub unpin_jobs : List UnpinJobRow
  pub tags : List TagRow
  pub manifests : List ManifestRow
  pub wallets : List WalletRow

abbrev pub empty_db : Db
empty_db = record {
  batches = [];
  requests = [];
  deals = [];
  operations = [];
  unpin_jobs = [];
  tags = [];
  manifests = [];
  wallets = [];
}
