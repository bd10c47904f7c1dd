-- ===== src/Brokerd/Examples/Once.antt =====
-- The theorems on errors and repeated reports, at the small deployment.
use broker_core.Base.{◌≡◌, refl, List, [], ◌∷◌, none, Bool, true, false}
use broker_core.Effects.{World, Error, ok, err, message}
use broker_core.Brokerd.Schema.{Db}
use broker_core.Brokerd.Handlers.Events
use broker_core.Brokerd.Calls.{Call, perform, serve}
use broker_core.Brokerd.Calls.Results.{perform-err}
use broker_core.Brokerd.Calls.Once.{auctioned_once, finalized_once}
use broker_core.Brokerd.Examples.{env, world, db, won, lost, final_deal, preparation}

accepted_lost : (Events.batch_auctioned env "op1" lost (world db)).0 ≡ ok tt
unfolding broker_core.Effects.◌>>=◌ broker_core.Effects.require broker_core.Effects.deferred_tx
    broker_core.Effects.exec_returning broker_core.Effects.query broker_core.Effects.exec
    broker_core.Effects.insert broker_core.Effects.new_id broker_core.Effects.with_tx
    broker_core.Effects.done broker_core.Brokerd.Store.Deals.operation_exists
    broker_core.Brokerd.Schema.Statements.create_operation broker_core.Base.contains
    broker_core.Brokerd.Store.Read.get_batch broker_core.Brokerd.Schema.Statements.get_batch
    broker_core.Brokerd.Schema.Statements.get_batch_tags broker_core.Base.Rows.select_one
    broker_core.Base.Rows.select broker_core.Base.Rows.update_rows broker_core.Base.Rows.exists_row
    broker_core.Brokerd.Store.Convert.batch_from_db broker_core.Brokerd.Store.Convert.cid_from_db
    broker_core.Brokerd.Store.Convert.ipfs_from_db broker_core.Brokerd.Store.Convert.parse_all
    broker_core.Brokerd.Store.Convert.tags_from_db Events.batch_auctioned Events.auctioned
    Events.auctioned_by Events.auction_lost broker_core.Brokerd.Handlers.Auction.batch_error
    broker_core.Brokerd.Store.Move.batch_error broker_core.Brokerd.Store.Move.batch_error_by
    broker_core.Brokerd.Store.Move.move_to_error
    broker_core.Brokerd.Schema.Statements.update_batch_status_and_error
    broker_core.Brokerd.Schema.Statements.update_storage_requests_status
    broker_core.Brokerd.Schema.Statements.get_storage_request_ids
    broker_core.Brokerd.Schema.Statements.get_storage_requests
accepted_lost = refl

accepted_deal : (Events.batch_finalized_deal env "op1" final_deal (world db)).0 ≡ ok tt
unfolding broker_core.Effects.◌>>=◌ broker_core.Effects.require broker_core.Effects.deferred_tx
    broker_core.Effects.exec_returning broker_core.Effects.query broker_core.Effects.exec
    broker_core.Effects.insert broker_core.Effects.new_id broker_core.Effects.with_tx
    broker_core.Effects.done broker_core.Brokerd.Store.Deals.operation_exists
    broker_core.Brokerd.Schema.Statements.create_operation broker_core.Base.contains
    broker_core.Brokerd.Store.Read.get_batch broker_core.Brokerd.Schema.Statements.get_batch
    broker_core.Brokerd.Schema.Statements.get_batch_tags broker_core.Base.Rows.select_one
    broker_core.Base.Rows.select broker_core.Base.Rows.update_rows broker_core.Base.Rows.exists_row
    broker_core.Brokerd.Store.Convert.batch_from_db broker_core.Brokerd.Store.Convert.cid_from_db
    broker_core.Brokerd.Store.Convert.ipfs_from_db broker_core.Brokerd.Store.Convert.parse_all
    broker_core.Brokerd.Store.Convert.tags_from_db Events.batch_finalized_deal Events.finalized
    Events.settle_deal Events.deal_confirmed Events.count_confirmed
    broker_core.Brokerd.Store.Deals.save_deals broker_core.Base.Rows.count_rows
    broker_core.Brokerd.Schema.Statements.update_deals broker_core.Brokerd.Store.Read.get_deals
    broker_core.Brokerd.Schema.Statements.get_deals
    broker_core.Brokerd.Handlers.Auction.batch_success broker_core.Brokerd.Store.Move.batch_success
    broker_core.Brokerd.Store.Move.unpin_all
    broker_core.Brokerd.Schema.Statements.update_batch_status
    broker_core.Brokerd.Schema.Statements.update_storage_requests_status
    broker_core.Brokerd.Schema.Statements.get_storage_requests
accepted_deal = refl

-- The batch is in auction already, with no such piece.
refused_preparation :
    (perform env
      (Call.new_batch_prepared "b1" (record preparation { piece_size = 32 }))
      (world db)).0
    ≡ err (message "piece size different from registered")
unfolding broker_core.Effects.◌>>=◌ broker_core.Effects.require broker_core.Effects.deferred_tx
    broker_core.Effects.query broker_core.Brokerd.Store.Read.get_batch
    broker_core.Brokerd.Schema.Statements.get_batch broker_core.Base.Rows.select_one
    broker_core.Brokerd.Store.Convert.batch_from_db broker_core.Brokerd.Store.Convert.cid_from_db
    broker_core.Brokerd.Store.Convert.ipfs_from_db perform Events.new_batch_prepared Events.validate
    Events.prepared Events.prepared_by Events.check_prepared
refused_preparation = refl

auctioned_once_example :
    let w' =
      serve env
        (Call.create "data" "o" ∷ [])
        (Events.batch_auctioned env "op1" lost (world db)).1 in
    ((e : Error) × ((Events.batch_auctioned env "op1" won w').0 ≡ err e))
    × ((Events.batch_auctioned env "op1" won w').1.db ≡ w'.db)
auctioned_once_example =
    auctioned_once env "op1" lost won (Call.create "data" "o" ∷ []) (world db) refl accepted_lost

finalized_once_example :
    let w' =
      serve env
        (Call.create "data" "o" ∷ [])
        (Events.batch_finalized_deal env "op1" final_deal (world db)).1 in
    ((e : Error) × ((Events.batch_finalized_deal env "op1" final_deal w').0 ≡ err e))
    × ((Events.batch_finalized_deal env "op1" final_deal w').1.db ≡ w'.db)
finalized_once_example =
    finalized_once env "op1" final_deal final_deal (Call.create "data" "o" ∷ []) (world db) refl
      accepted_deal

perform-err_example :
    (perform env
      (Call.new_batch_prepared "b1" (record preparation { piece_size = 32 }))
      (world db)).1.db
    ≡ db
perform-err_example =
    perform-err env (Call.new_batch_prepared "b1" (record preparation { piece_size = 32 }))
      (world db) (message "piece size different from registered") refl refl refused_preparation
