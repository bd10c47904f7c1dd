-- ===== src/Brokerd/Invariant/Handlers.antt =====
-- The operations of the broker keep every invariant of their batch.
use broker_core.Base.{ℕ, String, ◌≡◌, refl, Bool, Option, none, some, List, [], ◌∷◌}
use broker_core.Effects.Keeps.{
  Keeps, Keeps-bind, Keeps-require, Keeps-done, Keeps-lift, Keeps-pure, Keeps-raise, Keeps-panic,
  Keeps-if, keeps_rules,
}
use broker_core.Brokerd.Types.{Ident, Batch, BatchStatus, RemoteWallet, ClosedAuction}
use broker_core.Brokerd.Schema.{Db}
use broker_core.Brokerd.Env.{
  Env, Proposal, ReadyToBatchData, AuctionDeals, publish_ready_to_batch,
  publish_ready_to_create_deals, check_ready_to_batch, check_proposals, check_wallet,
}
use broker_core.Brokerd.Handlers.Auction
use broker_core.Brokerd.Handlers.Events
use broker_core.Brokerd.Invariant.{KeptAt}
use broker_core.Brokerd.Invariant.Move.{batch_error-Keeps, add_deals-Keeps}
use broker_core.Brokerd.Invariant.Read.{Keeps-read_request, Keeps-read_wallet, Keeps-read_excluded}

-- Publishing reads and writes no table.
module _ {I : Db → Type 0} where
  check_ready_to_batch-Keeps : (xs : List ReadyToBatchData) → Keeps I (check_ready_to_batch xs)
  unfolding check_ready_to_batch
  check_ready_to_batch-Keeps [] = Keeps-done
  check_ready_to_batch-Keeps (x ∷ xs) = Keeps-bind _ _ (Keeps-require _ _) (λ _.
      Keeps-bind _ _ (Keeps-require _ _)
        (λ _. Keeps-bind _ _ (Keeps-require _ _) (λ _. check_ready_to_batch-Keeps xs)))

  pub publish_ready_to_batch-Keeps :
      (xs : List ReadyToBatchData) → Keeps I (publish_ready_to_batch xs)
  unfolding publish_ready_to_batch
  publish_ready_to_batch-Keeps xs = search (keeps_rules, Keeps-require, check_ready_to_batch-Keeps)

  check_proposals-Keeps : (xs : List Proposal) → Keeps I (check_proposals xs)
  unfolding check_proposals
  check_proposals-Keeps [] = Keeps-done
  check_proposals-Keeps (x ∷ xs) = Keeps-bind _ _ (Keeps-require _ _) (λ _.
      Keeps-bind _ _ (Keeps-require _ _) (λ _.
        Keeps-bind _ _ (Keeps-require _ _)
          (λ _. Keeps-bind _ _ (Keeps-require _ _) (λ _. check_proposals-Keeps xs))))

  check_wallet-Keeps : (env : Env) (m : Option RemoteWallet) → Keeps I (check_wallet env.codec m)
  unfolding check_wallet
  check_wallet-Keeps env none = Keeps-done
  check_wallet-Keeps env (some m) = search (keeps_rules, Keeps-require)

  publish_ready_to_create_deals-Keeps :
      (env : Env) (a : AuctionDeals) → Keeps I (publish_ready_to_create_deals env.codec a)
  unfolding publish_ready_to_create_deals
  publish_ready_to_create_deals-Keeps env a =
      search (keeps_rules, check_proposals-Keeps, check_wallet-Keeps env)

  pub epoch_after-Keeps : (n : ℕ) → Keeps I (Auction.epoch_after n)
  unfolding Auction.epoch_after
  epoch_after-Keeps n = search (keeps_rules, Keeps-lift)

  ready_data-Keeps : (env : Env) (ids : List Ident) → Keeps I (Auction.ready_data env ids)
  unfolding Auction.ready_data
  ready_data-Keeps env [] = Keeps-pure []
  ready_data-Keeps env (i ∷ is) =
      Keeps-bind _ _ (Keeps-read_request env i)
        (λ br. Keeps-bind _ _ (ready_data-Keeps env is) (λ r. Keeps-pure _))

  pub excluded_providers-Keeps :
      (env : Env) (ba : Batch) (b : Bool) → Keeps I (Auction.excluded_providers env ba b)
  unfolding Auction.excluded_providers
  excluded_providers-Keeps env ba b = search (keeps_rules, Keeps-read_excluded)

module _ {I : Db → Type 0} (env : Env) (ba : Batch) (k : KeptAt ba.id I) where
  pub error-Keeps : (e : String) (rebatch : Bool) → Keeps I (Auction.batch_error env ba e rebatch)
  unfolding Auction.batch_error
  error-Keeps e rebatch = batch_error-Keeps ba.id k env e rebatch

  pub start_auction-Keeps :
      (wallet : Option RemoteWallet) (r n x : ℕ) (b : Bool)
      → Keeps I (Auction.start_auction env ba wallet r n x b)
  unfolding Auction.start_auction
  start_auction-Keeps wallet r n x b =
      search (keeps_rules, excluded_providers-Keeps env ba, error-Keeps)

  rebatch-Keeps : (e : String) → Keeps I (Auction.error_batch_and_rebatch env ba e)
  unfolding Auction.error_batch_and_rebatch
  rebatch-Keeps e =
      search (keeps_rules, error-Keeps, ready_data-Keeps, publish_ready_to_batch-Keeps)

  auction_lost-Keeps : (au : ClosedAuction) → Keeps I (Events.auction_lost env ba au)
  unfolding Events.auction_lost
  auction_lost-Keeps au = search (keeps_rules, Keeps-done, error-Keeps, rebatch-Keeps)

  fill_gap-Keeps :
      (wallet : Option RemoteWallet) (n : ℕ) → Keeps I (Events.fill_gap env ba wallet n)
  unfolding Events.fill_gap
  fill_gap-Keeps wallet n = search (keeps_rules, Keeps-done, epoch_after-Keeps, start_auction-Keeps)

  car_url_of-Keeps :
      (u : Option String) → ba.sources.car_url ≡ u → Keeps I (Events.car_url_of env ba)
  unfolding Events.car_url_of
  car_url_of-Keeps none e = rw e Keeps-panic
  car_url_of-Keeps (some u) e = rw e (Keeps-pure _)

  fire_deals-Keeps :
      (au : ClosedAuction) (wallet : Option RemoteWallet) (i : Ident) (ws : List String)
      → Keeps I (Events.fire_deals env ba au wallet i ws)
  unfolding Events.fire_deals
  fire_deals-Keeps au wallet i ws =
      Keeps-bind _ _ (car_url_of-Keeps ba.sources.car_url refl)
        (λ u. publish_ready_to_create_deals-Keeps env _)

  auction_won-Keeps :
      (au : ClosedAuction) → KeptAt au.batch_id I → Keeps I (Events.auction_won env ba au)
  unfolding Events.auction_won
  auction_won-Keeps au k' =
      search
        (
          keeps_rules, Keeps-done, Keeps-read_wallet, add_deals-Keeps, fill_gap-Keeps,
          fire_deals-Keeps,
        )
        depth 8

  pub auctioned_by-Keeps :
      (au : ClosedAuction) (st : BatchStatus)
      → KeptAt au.batch_id I
      → Keeps I (Events.auctioned_by env ba au st)
  unfolding Events.auctioned_by
  auctioned_by-Keeps au BatchStatus.error k' = Keeps-done
  auctioned_by-Keeps au BatchStatus.success k' = Keeps-done
  auctioned_by-Keeps au BatchStatus.auctioning k' =
      Keeps-if _ _ _ (auction_lost-Keeps au) (auction_won-Keeps au k')
  auctioned_by-Keeps au BatchStatus.deal_making k' =
      Keeps-if _ _ _ (auction_lost-Keeps au) (auction_won-Keeps au k')
  auctioned_by-Keeps au BatchStatus.unknown k' = Keeps-raise _
  auctioned_by-Keeps au BatchStatus.preparing k' = Keeps-raise _
