-- ===== src/Auctioneerd/Schema.antt =====
-- The tables of auctioneerd's queue (cmd/auctioneerd/auctioneer/queue/migrations) and their statements
-- (queue/internal/db). Times are in nanoseconds; a statement takes CURRENT_TIMESTAMP as an argument.
use broker_core.Base.{
  ℕ, ◌+◌, String, Bool, true, false, Option, none, some, List, [], ◌∷◌, ◌++◌, ◌&&◌, ltb, leb,
  str_eq, if◌then◌else◌,
}
use broker_core.Base.Int.{ℤ}
use broker_core.Base.Rows.{select, select_one, exists_row, update_rows, count_rows}
use broker_core.Effects.{Result, ok, err, unique_violation, no_rows}
use broker_core.Brokerd.Types.{Ident, AuctionStatus}

pub record AuctionRow : Type 0 where
  pub id : Ident
  pub batch_id : Ident
  pub deal_size : ℕ
  pub deal_duration : ℕ
  pub deal_replication : ℕ
  pub deal_verified : Bool
  pub fil_epoch_deadline : ℕ
  pub excluded_storage_providers : List String
  pub providers : List String
  pub payload_cid : String
  pub car_url : String
  pub car_ipfs_cid : String
  pub car_ipfs_addrs : List String
  pub status : AuctionStatus
  pub error_cause : String
  pub duration : ℤ
  pub started_at : ℕ
  pub updated_at : ℕ
  pub client_address : String

pub record BidRow : Type 0 where
  pub id : Ident
  pub auction_id : Ident
  pub wallet_addr_sig : Option String
  pub storage_provider_id : String
  pub bidder_id : String
  pub ask_price : ℤ
  pub verified_ask_price : ℤ
  pub start_epoch : ℕ
  pub fast_retrieval : Bool
  pub received_at : ℕ
  pub won_at : Option ℕ
  pub proposal_cid : Option String
  pub proposal_cid_delivered_at : Option ℕ
  pub proposal_cid_delivery_error : Option String
  pub deal_confirmed_at : Option ℕ
  pub won_reason : Option String
  pub deal_failed_at : Option ℕ

pub record Db : Type 0 where
  pub auctions : List AuctionRow
  pub bids : List BidRow

abbrev pub is_auction : Ident → AuctionRow → Bool
is_auction i a = str_eq a.id i

-- WHERE id = $1 AND auction_id = $2
abbrev pub is_bid : Ident → Ident → BidRow → Bool
is_bid a i b = str_eq b.id i && str_eq b.auction_id a

unfoldable pub create_auction : AuctionRow → Db → Result Db
create_auction a d =
    if exists_row (is_auction a.id) d.auctions
    then err unique_violation
    else ok (record d { auctions = d.auctions ++ a ∷ [] })

unfoldable pub get_auction : Ident → Db → Result AuctionRow
get_auction i d = elim (select_one (is_auction i) d.auctions) [ none ↦ err no_rows | some a ↦ ok a ]

-- Queued, or started for longer than `stuck`.
unfoldable pub is_ready : ℕ → ℕ → AuctionRow → Bool
is_ready stuck now a = elim a.status [
  | AuctionStatus.unspecified ↦ false
  | AuctionStatus.queued ↦ true
  | AuctionStatus.started ↦ ltb (a.updated_at + stuck) now
  | AuctionStatus.finalized ↦ false
]

-- ORDER BY fil_epoch_deadline LIMIT 1; of rows with the same deadline, the first.
unfoldable pub earliest : List AuctionRow → Option AuctionRow
earliest [] = none
earliest (a ∷ rest) = elim (earliest rest) [
  | none ↦ some a
  | some b ↦ if leb a.fil_epoch_deadline b.fil_epoch_deadline then some a else some b
]

unfoldable pub get_next_ready_to_execute : ℕ → ℕ → Db → Option AuctionRow
get_next_ready_to_execute stuck now d = earliest (select (is_ready stuck now) d.auctions)

unfoldable pub update_auction_status_and_error : Ident → AuctionStatus → String → ℕ → Db → Db
update_auction_status_and_error i s cause now d = record d {
  auctions =
      update_rows (is_auction i)
        (λ a. record a { status = s; error_cause = cause; updated_at = now }) d.auctions;
}

-- The auction of a new bid must exist.
unfoldable pub create_bid : BidRow → Db → Result Db
create_bid b d =
    if exists_row (λ x. str_eq x.id b.id) d.bids
    then err unique_violation
    else if exists_row (is_auction b.auction_id) d.auctions
    then ok (record d { bids = d.bids ++ b ∷ [] })
    else err no_rows

unfoldable pub get_auction_bids : Ident → Db → List BidRow
get_auction_bids i d = select (λ b. str_eq b.auction_id i) d.bids

abbrev pub update_bids : Ident → Ident → (BidRow → BidRow) → Db → Db
update_bids a i f d = record d { bids = update_rows (is_bid a i) f d.bids }

unfoldable pub update_deal_confirmed_at : Ident → Ident → ℕ → Db → Db
update_deal_confirmed_at a i now = update_bids a i (λ b. record b { deal_confirmed_at = some now })

unfoldable pub update_deal_failed_at : Ident → Ident → ℕ → Db → Db
update_deal_failed_at a i now = update_bids a i (λ b. record b { deal_failed_at = some now })

unfoldable pub update_proposal_cid : Ident → Ident → String → ℕ → Db → Db
update_proposal_cid a i c now =
    update_bids a i (λ b. record b { proposal_cid = some c; proposal_cid_delivered_at = some now })

unfoldable pub update_proposal_cid_delivery_error : Ident → Ident → String → Db → Db
update_proposal_cid_delivery_error a i e =
    update_bids a i (λ b. record b { proposal_cid_delivery_error = some e })

-- With the number of bids that are updated.
unfoldable pub update_winning_bid : Ident → Ident → String → ℕ → Db → ℕ × Db
update_winning_bid a i reason now d = (
  count_rows (is_bid a i) d.bids,
  update_bids a i (λ b. record b { won_reason = some reason; won_at = some now }) d,
)
