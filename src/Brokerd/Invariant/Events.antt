-- ===== src/Brokerd/Invariant/Events.antt =====
-- The requests and reports that the broker answers keep every invariant of their batch.
use broker_core.Base.{◌≡◌, sym, Bool, Option, none, List, not, subst}
use broker_core.Effects.{operation_exists, require, ◌>>=◌, ◌>>◌}
use broker_core.Effects.Keeps.{
  Keeps, Keeps-bind, Keeps-bind_of, Keeps-require, Keeps-done, Keeps-pure, Keeps-raise, Keeps-if,
  keeps_rules,
}
use broker_core.Brokerd.Types.{
  Ident, Batch, BatchStatus, RemoteWallet, StorageRequest, ClosedAuction, FinalizedDeal,
  DataPreparationResult,
}
use broker_core.Brokerd.Schema.{Db, DealRow}
use broker_core.Brokerd.Env.{Env}
use broker_core.Brokerd.Handlers.Auction
use broker_core.Brokerd.Handlers.Events
use broker_core.Brokerd.Handlers.Requests
use broker_core.Brokerd.Store.Read
use broker_core.Brokerd.Store.Deals
use broker_core.Brokerd.Invariant.{KeptAt}
use broker_core.Brokerd.Invariant.Create.{create_storage_request-Keeps, create_batch-Keeps}
use broker_core.Brokerd.Invariant.Handlers.{
  epoch_after-Keeps, error-Keeps, start_auction-Keeps, auctioned_by-Keeps,
}
use broker_core.Brokerd.Invariant.Move.{
  batch_to_auctioning-Keeps, batch_success-Keeps, save_deals-Keeps, operation_exists-Keeps,
}
use broker_core.Brokerd.Invariant.Read.{
  get_batch-Returns_id, Keeps-read_batch, Keeps-read_wallet, Keeps-read_deals,
}

module _ {I : Db → Type 0} (env : Env) where
  at_batch : (ba : Batch) (id : Ident) → ba.id ≡ id → KeptAt id I → KeptAt ba.id I
  at_batch ba id e k = subst (λ i. KeptAt i I) (sym e) k

  -- What follows the record of the operation.
  pub auctioned_after-Keeps :
      (au : ClosedAuction) (b : Bool)
      → KeptAt au.batch_id I
      → Keeps I (
          require (not b) operation_exists
          >> (Read.get_batch env au.batch_id >>= λ ba. Events.auctioned_by env ba au ba.status))
  auctioned_after-Keeps au b k = Keeps-bind _ _ (Keeps-require _ _) (λ _.
      Keeps-bind_of (λ ba. ba.id ≡ au.batch_id) _ _ (get_batch-Returns_id env au.batch_id)
        (Keeps-read_batch env au.batch_id)
        (λ ba e. auctioned_by-Keeps env ba (at_batch ba au.batch_id e k) au ba.status k))

  pub auctioned-Keeps :
      (op : Ident) (au : ClosedAuction)
      → KeptAt au.batch_id I
      → Keeps I (Events.auctioned env op au)
  unfolding Events.auctioned
  auctioned-Keeps op au k =
      Keeps-bind _ _ (operation_exists-Keeps au.batch_id k op) (λ b. auctioned_after-Keeps au b k)

  prepared_by-Keeps :
      (id : Ident) (ba : Batch) (dpr : DataPreparationResult) (st : BatchStatus)
      → KeptAt id I
      → KeptAt ba.id I
      → Keeps I (Events.prepared_by env id ba dpr st)
  unfolding Events.prepared_by Events.auction_prepared Events.check_prepared
  prepared_by-Keeps id ba dpr BatchStatus.preparing k k' = search (
    keeps_rules,
    Keeps-require,
    Keeps-done,
    epoch_after-Keeps,
    batch_to_auctioning-Keeps id k env,
    start_auction-Keeps env ba k',
  )
  prepared_by-Keeps id ba dpr BatchStatus.auctioning k k' = search (keeps_rules, Keeps-require)
  prepared_by-Keeps id ba dpr BatchStatus.error k k' = Keeps-raise _
  prepared_by-Keeps id ba dpr BatchStatus.success k k' = Keeps-raise _
  prepared_by-Keeps id ba dpr BatchStatus.deal_making k k' = Keeps-raise _
  prepared_by-Keeps id ba dpr BatchStatus.unknown k k' = Keeps-raise _

  -- The transaction of NewBatchPrepared.
  pub prepared-Keeps :
      (id : Ident) (dpr : DataPreparationResult)
      → KeptAt id I
      → Keeps I (Events.prepared env id dpr)
  unfolding Events.prepared
  prepared-Keeps id dpr k =
      Keeps-bind_of (λ ba. ba.id ≡ id) _ _ (get_batch-Returns_id env id) (Keeps-read_batch env id)
        (λ ba e. prepared_by-Keeps id ba dpr ba.status k (at_batch ba id e k))

  deal_failed-Keeps :
      (ba : Batch) (fad : FinalizedDeal) → KeptAt ba.id I → Keeps I (Events.deal_failed env ba fad)
  unfolding Events.deal_failed
  deal_failed-Keeps ba fad k =
      search
        (
          keeps_rules,
          Keeps-done,
          epoch_after-Keeps,
          error-Keeps env ba k,
          Keeps-read_wallet,
          start_auction-Keeps env ba k,
        )
        depth 8

  deal_confirmed-Keeps :
      (ba : Batch) (ds : List DealRow) → KeptAt ba.id I → Keeps I (Events.deal_confirmed env ba ds)
  unfolding Events.deal_confirmed Auction.batch_success
  deal_confirmed-Keeps ba ds k = Keeps-if _ _ _ (batch_success-Keeps ba.id k env) Keeps-done

  pub finalized_after-Keeps :
      (fad : FinalizedDeal) (b : Bool)
      → KeptAt fad.batch_id I
      → Keeps I (
          require (not b) operation_exists
          >> (Deals.save_deals fad
              >> (Read.get_batch env fad.batch_id >>= λ ba. Events.settle_deal env ba fad)))
  unfolding Events.settle_deal
  finalized_after-Keeps fad b k = Keeps-bind _ _ (Keeps-require _ _) (λ _.
      Keeps-bind _ _ (save_deals-Keeps fad.batch_id k fad) (λ _.
        Keeps-bind_of (λ ba. ba.id ≡ fad.batch_id) _ _ (get_batch-Returns_id env fad.batch_id)
          (Keeps-read_batch env fad.batch_id)
          (λ ba e. Keeps-bind _ _ (Keeps-read_deals ba.id) (λ ds.
            Keeps-if _ _ _ (deal_failed-Keeps ba fad (at_batch ba fad.batch_id e k))
              (deal_confirmed-Keeps ba ds (at_batch ba fad.batch_id e k))))))

  pub finalized-Keeps :
      (op : Ident) (fad : FinalizedDeal)
      → KeptAt fad.batch_id I
      → Keeps I (Events.finalized env op fad)
  unfolding Events.finalized
  finalized-Keeps op fad k =
      Keeps-bind _ _ (operation_exists-Keeps fad.batch_id k op) (λ b. finalized_after-Keeps fad b k)

  pub save_prepared-Keeps :
      (sr : StorageRequest) (ba : Batch) (wallet : Option RemoteWallet)
      → KeptAt ba.id I
      → Keeps I (Requests.save_prepared env sr ba wallet)
  unfolding Requests.save_prepared
  save_prepared-Keeps sr ba wallet k =
      Keeps-bind _ _ (create_storage_request-Keeps ba.id k env sr) (λ _.
        Keeps-bind _ _ (create_batch-Keeps env ba _ none wallet k) (λ _.
          Keeps-bind _ _ (epoch_after-Keeps _) (λ n.
            Keeps-bind _ _ (start_auction-Keeps env ba k wallet _ _ n _) (λ _. Keeps-pure _))))
