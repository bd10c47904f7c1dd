-- ===== src/Brokerd/Handlers/Events.antt =====
-- What the piecer, the auctioneer and the dealer report to the broker: NewBatchPrepared,
-- BatchAuctioned and BatchFinalizedDeal.
use broker_core.Base.{
  ℕ, ◌+◌, ◌-◌, String, Bool, true, false, Option, none, some, List, [], ◌∷◌, ◌&&◌, ◌||◌, not,
  nat_eq, ltb, str_eq, if◌then◌else◌, length,
}
use broker_core.Base.Int.{ℤ, pos, negsuc}
use broker_core.Effects.{
  message, pure, raise, panic, done, require, new_id, deferred_tx, ◌>>=◌, ◌>>◌, operation_exists,
}
use broker_core.Brokerd.Types.{
  Ident, Batch, BatchStatus, AuctionStatus, RemoteWallet, DataPreparationResult, WinningBid,
  ClosedAuction, FinalizedDeal, is_defined,
}
use broker_core.Brokerd.Schema.{DealRow}
use broker_core.Brokerd.Env.{
  Env, Action, Command, Proposal, publish_ready_to_create_deals, filled, is_empty,
}
use broker_core.Brokerd.Store.Read
use broker_core.Brokerd.Store.Move
use broker_core.Brokerd.Store.Deals
use broker_core.Brokerd.Handlers.Auction.{
  epoch_after, batch_success, batch_error, start_auction, error_batch_and_rebatch,
}

-- DataPreparationResult.Validate
unfoldable pub validate : DataPreparationResult → Command
validate dpr = do
  require (not (nat_eq dpr.piece_size 0)) (message "piece size is zero")
  require (is_defined dpr.piece_cid) (message "piece cid is undefined")

-- The auction of a batch that was prepared now.
unfoldable pub auction_prepared : Env → Ident → Batch → DataPreparationResult → Command
auction_prepared env id ba dpr = do
  require (not (is_defined ba.piece_cid || ltb 0 ba.piece_size))
      (message "piece cid and size should be empty")
  Move.batch_to_auctioning env id dpr.piece_cid dpr.piece_size
  epoch ← epoch_after ba.proposal_start_offset
  -- `ba` is still the batch as it was read above
  start_auction env ba none ba.rep_factor dpr.piece_size epoch false
  done

-- A repeated report of the same preparation changes nothing.
unfoldable pub check_prepared : Batch → DataPreparationResult → Command
check_prepared ba dpr = do
  require (str_eq ba.piece_cid dpr.piece_cid) (message "piececid different from registered")
  require (nat_eq ba.piece_size dpr.piece_size) (message "piece size different from registered")

unfoldable pub prepared_by : Env → Ident → Batch → DataPreparationResult → BatchStatus → Command
prepared_by env id ba dpr BatchStatus.preparing = auction_prepared env id ba dpr
prepared_by env id ba dpr BatchStatus.auctioning = check_prepared ba dpr
prepared_by env id ba dpr _ = raise (message "wrong storage request status transition")

-- The transaction of NewBatchPrepared.
unfoldable pub prepared : Env → Ident → DataPreparationResult → Command
prepared env id dpr = do ba ← Read.get_batch env id; prepared_by env id ba dpr ba.status

-- NewBatchPrepared
unfoldable pub new_batch_prepared : Env → Ident → DataPreparationResult → Command
new_batch_prepared env id dpr = do
  require (filled id) (message "the batch id is empty")
  validate dpr
  deferred_tx (prepared env id dpr)

-- The first of the winning bids that is the provider's, in the order of one `range` statement; the zero
-- `Proposal` where there is none.
unfoldable pub proposal_of : ClosedAuction → List (Ident × WinningBid) → String → Proposal
proposal_of au [] winner = record {
  storage_provider_id = "";
  price_per_gib_per_epoch = pos 0;
  start_epoch = 0;
  verified = false;
  fast_retrieval = false;
  auction_id = "";
  bid_id = "";
}
proposal_of au ((bid_id, bid) ∷ rest) winner =
    let next = proposal_of au rest winner in
    let hit : Proposal = record {
      storage_provider_id = bid.storage_provider_id;
      price_per_gib_per_epoch = bid.price;
      start_epoch = bid.start_epoch;
      verified = au.deal_verified;
      fast_retrieval = bid.fast_retrieval;
      auction_id = au.id;
      bid_id = bid_id;
    } in
    if str_eq bid.storage_provider_id winner then hit else next

-- One proposal for each accepted winner; each goes through the map of winning bids in its own order.
unfoldable pub proposals_from : Env → ClosedAuction → ℕ → List String → List Proposal
proposals_from env au n [] = []
proposals_from env au n (w ∷ ws) =
    proposal_of au (env.order n au.winning_bids) w ∷ proposals_from env au (n + 1) ws

-- ba.Sources.CARURL.URL.String(), which panics where the batch has no URL.
unfoldable pub car_url_of : Env → Batch → Action String
car_url_of env ba = elim ba.sources.car_url [
  | none ↦ panic
  | some u ↦ pure (env.codec.url_string u)
]

-- The deals of the accepted winners.
unfoldable pub fire_deals :
    Env → Batch → ClosedAuction → Option RemoteWallet → Ident → List String → Command
fire_deals env ba au wallet id winners = do
  url ← car_url_of env ba
  publish_ready_to_create_deals env.codec (record {
    id = id;
    batch_id = ba.id;
    payload_cid = ba.payload_cid;
    piece_cid = ba.piece_cid;
    piece_size = ba.piece_size;
    duration = au.deal_duration;
    proposals = proposals_from env au 1 winners;
    remote_wallet = wallet;
    car_url = url;
  })

-- An auction for the winners that were not accepted.
unfoldable pub fill_gap : Env → Batch → Option RemoteWallet → ℕ → Command
fill_gap env ba wallet missing = do
  epoch ← epoch_after ba.proposal_start_offset
  start_auction env ba wallet missing ba.piece_size epoch false
  done

-- A closed auction that has winning bids.
unfoldable pub auction_won : Env → Batch → ClosedAuction → Command
auction_won env ba au = do
  wallet ← Read.get_remote_wallet_config env au.batch_id
  id ← new_id env.id
  winners ← Deals.add_deals env au
  if nat_eq (length winners) (length au.winning_bids)
      then done
      else fill_gap env ba wallet (length au.winning_bids - length winners)
  if is_empty winners then done else fire_deals env ba au wallet id winners

-- A closed auction that failed.
unfoldable pub auction_lost : Env → Batch → ClosedAuction → Command
auction_lost env ba au =
    if ba.disallow_rebatching
    then (batch_error env ba au.error_cause false >> done)
    else error_batch_and_rebatch env ba au.error_cause

unfoldable pub auctioned_by : Env → Batch → ClosedAuction → BatchStatus → Command
auctioned_by env ba au BatchStatus.error = done
auctioned_by env ba au BatchStatus.success = done
auctioned_by env ba au BatchStatus.auctioning =
    if filled au.error_cause then auction_lost env ba au else auction_won env ba au
auctioned_by env ba au BatchStatus.deal_making =
    if filled au.error_cause then auction_lost env ba au else auction_won env ba au
auctioned_by env ba au BatchStatus.unknown = raise (message "batch isn't in expected status")
auctioned_by env ba au BatchStatus.preparing = raise (message "batch isn't in expected status")

abbrev pub is_final : AuctionStatus → Bool
is_final AuctionStatus.finalized = true
is_final _ = false

-- The transaction of BatchAuctioned.
unfoldable pub auctioned : Env → Ident → ClosedAuction → Command
auctioned env op au = do
  exists ← Deals.operation_exists op
  require (not exists) operation_exists
  ba ← Read.get_batch env au.batch_id
  auctioned_by env ba au ba.status

-- BatchAuctioned
unfoldable pub batch_auctioned : Env → Ident → ClosedAuction → Command
batch_auctioned env op au = do
  require (is_final au.status) (message "auction status should be final")
  deferred_tx (auctioned env op au)

abbrev pub is_positive : ℤ → Bool
is_positive (pos n) = ltb 0 n
is_positive (negsuc n) = false

-- The deals without an error that are on chain.
unfoldable pub count_confirmed : List DealRow → ℕ
count_confirmed [] = 0
count_confirmed (d ∷ ds) =
    (if not (filled d.error_cause) && is_positive d.deal_id then 1 else 0) + count_confirmed ds

-- The batch has a deadline that a new auction would miss.
abbrev pub too_late : Batch → ℕ → Bool
too_late ba epoch = ltb 0 ba.fil_epoch_deadline && ltb ba.fil_epoch_deadline epoch

-- A deal that failed: a new auction for one replica, or the end of the batch.
unfoldable pub deal_failed : Env → Batch → FinalizedDeal → Command
deal_failed env ba fad = do
  epoch ← epoch_after ba.proposal_start_offset
  if not (env.codec.contains_text fad.error_cause "deal rejected") && too_late ba epoch
      then (batch_error env ba "re-auction deadline is greater than batch deadline" false >> done)
      else (do
        wallet ← Read.get_remote_wallet_config env ba.id
        start_auction env ba wallet 1 ba.piece_size epoch false
        done)

unfoldable pub deal_confirmed : Env → Batch → List DealRow → Command
deal_confirmed env ba deals =
    if nat_eq (count_confirmed deals) ba.rep_factor then batch_success env ba else done

-- The end of BatchFinalizedDeal.
unfoldable pub settle_deal : Env → Batch → FinalizedDeal → Command
settle_deal env ba fad = do
  deals ← Read.get_deals ba.id
  if filled fad.error_cause then deal_failed env ba fad else deal_confirmed env ba deals

-- The transaction of BatchFinalizedDeal.
unfoldable pub finalized : Env → Ident → FinalizedDeal → Command
finalized env op fad = do
  exists ← Deals.operation_exists op
  require (not exists) operation_exists
  Deals.save_deals fad
  ba ← Read.get_batch env fad.batch_id
  settle_deal env ba fad

-- BatchFinalizedDeal
unfoldable pub batch_finalized_deal : Env → Ident → FinalizedDeal → Command
batch_finalized_deal env op fad = deferred_tx (finalized env op fad)
