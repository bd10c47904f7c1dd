-- ===== src/Auctioneerd/Types.antt =====
-- The data types of auctioneer/auctioneer.go. The zero `time.Time` is `none`, and a nil byte slice too.
use broker_core.Base.{ℕ, String, Bool, true, false, Option, List, zero, suc}
use broker_core.Base.Int.{ℤ, pos, negsuc}
use broker_core.Brokerd.Types.{Ident, Cid, AuctionStatus, Sources}

abbrev pub is_zero : ℤ → Bool
is_zero (pos zero) = true
is_zero (pos (suc n)) = false
is_zero (negsuc n) = false

-- Prices are in attoFIL per GiB per epoch.
pub record Bid : Type 0 where
  pub id : Ident
  pub storage_provider_id : String
  pub wallet_addr_sig : Option String
  pub bidder_id : String
  pub ask_price : ℤ
  pub verified_ask_price : ℤ
  pub start_epoch : ℕ
  pub fast_retrieval : Bool
  pub received_at : ℕ
  pub won_at : Option ℕ
  pub proposal_cid : Cid
  pub proposal_cid_delivered_at : Option ℕ
  pub proposal_cid_delivery_error : String
  pub deal_uid : String

pub record WinningBid : Type 0 where
  pub bidder_id : String
  pub proposal_cid : Cid
  pub deal_uid : String
  pub winning_reason : String
  pub error_cause : String

pub record Auction : Type 0 where
  pub id : Ident
  pub batch_id : Ident
  pub payload_cid : Cid
  pub deal_size : ℕ
  pub deal_duration : ℕ
  pub deal_replication : ℕ
  pub deal_verified : Bool
  pub fil_epoch_deadline : ℕ
  pub excluded_storage_providers : List String
  pub providers : List String
  pub sources : Sources
  pub client_address : String
  pub status : AuctionStatus
  pub bids : List (Ident × Bid)
  pub winning_bids : List (Ident × WinningBid)
  pub started_at : Option ℕ
  pub updated_at : Option ℕ
  -- in nanoseconds, as a `time.Duration`
  pub duration : ℤ
  pub error_cause : String

-- The price that counts for the auction.
abbrev pub price_of : Auction → Bid → ℤ
price_of a b = elim a.deal_verified [ true ↦ b.verified_ask_price | false ↦ b.ask_price ]
