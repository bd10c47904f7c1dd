-- ===== src/Brokerd/Store/Deals.antt =====
-- AddDeals, SaveDeals and OperationExists (cmd/brokerd/store/store.go).
use broker_core.Base.{
  String, Bool, true, false, List, [], ◌∷◌, not, nat_eq, if◌then◌else◌, contains,
}
use broker_core.Base.Int.{pos}
use broker_core.Base.Rows.{count_rows}
use broker_core.Effects.{
  message, Result, ok, err, panicked, pure, done, require, exec, exec_returning, query, with_tx,
  ◌>>=◌, ◌>>◌,
}
use broker_core.Brokerd.Types.{
  Ident, BatchStatus, RequestStatus, ClosedAuction, WinningBid, FinalizedDeal,
}
use broker_core.Brokerd.Schema.{BatchRow, Db}
use broker_core.Brokerd.Schema.Statements
use broker_core.Brokerd.Schema.Statements.{is_deal_of}
use broker_core.Brokerd.Env.{Env, Action, Command, is_empty}

-- The loop of AddDeals over the winning bids: it creates a deal for each that is not excluded, and
-- returns their providers.
unfoldable pub add_winners :
    ClosedAuction → List String → List (Ident × WinningBid) → Action (List String)
add_winners au excluded [] = pure []
add_winners au excluded ((bid_id, bid) ∷ rest) =
    let accept = (do
      exec (
          Statements.create_deal (record {
            batch_id = au.batch_id;
            auction_id = au.id;
            bid_id = bid_id;
            storage_provider_id = bid.storage_provider_id;
            deal_id = pos 0;
            deal_expiration = 0;
            error_cause = "";
          }))
      winners ← add_winners au excluded rest
      pure (bid.storage_provider_id ∷ winners)) in
    let skip = add_winners au excluded rest in
    if contains excluded bid.storage_provider_id then skip else accept

-- Direct-to-provider batches ignore the history.
unfoldable pub excluded_for : BatchRow → Action (List String)
excluded_for ba =
    if is_empty ba.providers
    then query (λ d. ok (Statements.get_excluded_storage_providers ba.piece_cid ba.origin d))
    else pure []

-- Only the first successful auction moves the batch and its requests to deal making.
unfoldable pub to_deal_making : Ident → Ident → BatchStatus → Command
to_deal_making auction_batch id BatchStatus.auctioning = do
  exec (Statements.update_batch_status auction_batch BatchStatus.deal_making)
  exec (Statements.update_storage_requests_status id RequestStatus.deal_making)
to_deal_making auction_batch id _ = done

abbrev pub takes_deals : BatchStatus → Bool
takes_deals BatchStatus.auctioning = true
takes_deals BatchStatus.deal_making = true
takes_deals _ = false

-- AddDeals: the accepted winners.
unfoldable pub add_deals : Env → ClosedAuction → Action (List String)
add_deals env au = with_tx do
  ba ← query (Statements.get_batch au.batch_id)
  require (takes_deals ba.status) (message "wrong storage request status transition")
  excluded ← excluded_for ba
  winners ← add_winners au excluded (env.order 0 au.winning_bids)
  to_deal_making au.batch_id ba.id ba.status
  pure winners

-- OperationExists, which records the operation if it is new.
abbrev pub recorded : Db → Result Db → Bool × Db
recorded d (ok d') = (false, d')
recorded d (err e) = (true, d)
recorded d panicked = (true, d)

unfoldable pub operation_exists : Ident → Action Bool
operation_exists op = exec_returning (λ d. recorded d (Statements.create_operation op d))

-- SaveDeals
unfoldable pub save_deals : FinalizedDeal → Command
save_deals fad = do
  rows ← exec_returning (λ d. (
    count_rows (is_deal_of fad.batch_id fad.storage_provider_id) d.deals,
    Statements.update_deals fad.batch_id fad.storage_provider_id fad.deal_id fad.deal_expiration
        fad.error_cause d,
  ))
  require (not (nat_eq rows 0)) (message "deal not found")
