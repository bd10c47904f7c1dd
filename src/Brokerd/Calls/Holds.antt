-- ===== src/Brokerd/Calls/Holds.antt =====
-- Invariants of the database hold after any calls, whatever comes of each.
use broker_core.Base.{ℕ, String, ◌≡◌, refl, false, Option, none, List, [], ◌∷◌, str_eq}
use broker_core.Effects.{World}
use broker_core.Effects.Stays.{
  AtRest, Stays, Stays-bind, Stays-pure, Stays-done, Stays-require, Stays-new_id, Stays-lift,
  Stays-gets, Stays-publish, Stays-insert, Stays-deferred_tx,
}
use broker_core.Brokerd.Types.{
  Ident, PreparedCar, BatchMetadata, RemoteWallet, DataPreparationResult, ClosedAuction,
  FinalizedDeal,
}
use broker_core.Brokerd.Schema.{Db, BatchRow}
use broker_core.Brokerd.Env.{
  Env, Message, ReadyToBatchData, check_ready_to_batch, publish_ready_to_batch,
}
use broker_core.Brokerd.Handlers.Requests
use broker_core.Brokerd.Handlers.Events
use broker_core.Brokerd.Store.Create
use broker_core.Brokerd.Invariant.{KeptAt}
use broker_core.Brokerd.Invariant.Create.{inserted_request, create_batch-Stays}
use broker_core.Brokerd.Invariant.Events.{
  save_prepared-Keeps, auctioned-Keeps, finalized-Keeps, prepared-Keeps,
}
use broker_core.Brokerd.Mirror.{IsMirrored}
use broker_core.Brokerd.Kept.{IsMirrored-KeptAt, HasRow, row_KeptAt}
use broker_core.Brokerd.Calls.{Call, perform, serve}

module _ {I : Db → Type 0} where
  check_ready_to_batch-Stays : (xs : List ReadyToBatchData) → Stays I (check_ready_to_batch xs)
  unfolding check_ready_to_batch
  check_ready_to_batch-Stays [] = Stays-done
  check_ready_to_batch-Stays (x ∷ xs) = Stays-bind _ _ (Stays-require _ _) (λ _.
      Stays-bind _ _ (Stays-require _ _)
        (λ _. Stays-bind _ _ (Stays-require _ _) (λ _. check_ready_to_batch-Stays xs)))

  publish_ready_to_batch-Stays : (xs : List ReadyToBatchData) → Stays I (publish_ready_to_batch xs)
  unfolding publish_ready_to_batch
  publish_ready_to_batch-Stays xs =
      Stays-bind _ _ (Stays-require _ _)
        (λ _. Stays-bind _ _ (check_ready_to_batch-Stays xs) (λ _. Stays-publish _))

  pub check_ids-Stays : (ids : List Ident) → Stays {M = Message} I (Requests.check_ids ids)
  unfolding Requests.check_ids
  check_ids-Stays [] = Stays-done
  check_ids-Stays (i ∷ is) = Stays-bind _ _ (Stays-require _ _) (λ _. check_ids-Stays is)

module _ {I : Db → Type 0} (env : Env) where
  create-Stays :
      (id c : Ident) (origin : String) → KeptAt id I → Stays I (Requests.create env c origin)
  unfolding Requests.create Create.create_storage_request
  create-Stays id c origin k = Stays-bind _ _ (Stays-require _ _) (λ _.
      Stays-bind _ _ (Stays-new_id env.id) (λ n.
        Stays-bind _ _ (Stays-insert _ (λ d d' e h. inserted_request id k _ d d' refl e h))
          (λ _. Stays-bind _ _ (publish_ready_to_batch-Stays _) (λ _. Stays-pure _))))

  create_prepared-Stays :
      (c : Ident) (pc : PreparedCar) (meta : BatchMetadata) (wallet : Option RemoteWallet)
      → ((id : Ident) → KeptAt id I)
      → Stays I (Requests.create_prepared env c pc meta wallet)
  unfolding Requests.create_prepared Requests.prepared_batch
  create_prepared-Stays c pc meta wallet k = Stays-bind _ _ (Stays-require _ _) (λ _.
      Stays-bind _ _ (Stays-require _ _) (λ _. Stays-bind _ _ (Stays-new_id env.id) (λ n.
        Stays-bind _ _ (Stays-lift _) (λ off. Stays-bind _ _ (Stays-gets _) (λ now.
          Stays-bind _ _ (Stays-lift _) (λ dl.
            Stays-bind _ _ (Stays-new_id env.id)
              (λ id. Stays-deferred_tx _ (save_prepared-Keeps env _ _ wallet (k id)))))))))

  create_new_batch-Stays :
      (id c : Ident) (size : ℕ) (ids : List Ident) (origin : String) (m : Option (List ℕ))
      (url : String)
      → KeptAt id I
      → Stays I (Requests.create_new_batch env id c size ids origin m url)
  unfolding Requests.create_new_batch Requests.packed_batch
  create_new_batch-Stays id c size ids origin m url k = Stays-bind _ _ (Stays-require _ _) (λ _.
      Stays-bind _ _ (Stays-require _ _) (λ _. Stays-bind _ _ (Stays-require _ _) (λ _.
        Stays-bind _ _ (check_ids-Stays ids)
          (λ _. Stays-bind _ _ (create_batch-Stays env _ ids m none k) (λ _. Stays-pure _)))))

  new_batch_prepared-Stays :
      (id : Ident) (dpr : DataPreparationResult)
      → KeptAt id I
      → Stays I (Events.new_batch_prepared env id dpr)
  unfolding Events.new_batch_prepared Events.validate
  new_batch_prepared-Stays id dpr k = Stays-bind _ _ (Stays-require _ _) (λ _.
      Stays-bind _ _ (Stays-bind _ _ (Stays-require _ _) (λ _. Stays-require _ _))
        (λ _. Stays-deferred_tx _ (prepared-Keeps env id dpr k)))

  batch_auctioned-Stays :
      (op : Ident) (au : ClosedAuction)
      → KeptAt au.batch_id I
      → Stays I (Events.batch_auctioned env op au)
  unfolding Events.batch_auctioned
  batch_auctioned-Stays op au k =
      Stays-bind _ _ (Stays-require _ _) (λ _. Stays-deferred_tx _ (auctioned-Keeps env op au k))

  batch_finalized_deal-Stays :
      (op : Ident) (fad : FinalizedDeal)
      → KeptAt fad.batch_id I
      → Stays I (Events.batch_finalized_deal env op fad)
  unfolding Events.batch_finalized_deal
  batch_finalized_deal-Stays op fad k = Stays-deferred_tx _ (finalized-Keeps env op fad k)

module _ {I : Db → Type 0} (env : Env) (k : (id : Ident) → KeptAt id I) where
  pub perform-Stays : (c : Call) → Stays I (perform env c)
  unfolding perform
  perform-Stays (Call.create c o) =
      Stays-bind _ _ (create-Stays env "" c o (k "")) (λ _. Stays-done)
  perform-Stays (Call.create_prepared c pc m w) =
      Stays-bind _ _ (create_prepared-Stays env c pc m w k) (λ _. Stays-done)
  perform-Stays (Call.create_new_batch id c n ids o m u) =
      Stays-bind _ _ (create_new_batch-Stays env id c n ids o m u (k id)) (λ _. Stays-done)
  perform-Stays (Call.new_batch_prepared id dpr) = new_batch_prepared-Stays env id dpr (k id)
  perform-Stays (Call.batch_auctioned op au) = batch_auctioned-Stays env op au (k au.batch_id)
  perform-Stays (Call.batch_finalized_deal op fad) =
      batch_finalized_deal-Stays env op fad (k fad.batch_id)

  pub serve-AtRest :
      (cs : List Call) (w : World Db Message) → AtRest I w → AtRest I (serve env cs w)
  unfolding serve
  serve-AtRest [] w h = h
  serve-AtRest (c ∷ cs) w h = serve-AtRest cs (perform env c w).1 ((perform-Stays c).at w h)

-- After any calls, answered in any order, with any errors of their statements, publications and commits,
-- every storage request that is in a batch is in one that exists and has the status that the batch's status
-- prescribes, if this holds before them and no transaction is open. These calls of libraries give errors but
-- do not panic; that the report of an auction of a batch without a URL panics is covered.
pub serve-IsMirrored :
    (env : Env) (cs : List Call) (w : World Db Message)
    → AtRest IsMirrored w
    → AtRest IsMirrored (serve env cs w)
serve-IsMirrored env cs w h = serve-AtRest env IsMirrored-KeptAt cs w h

-- A report on one batch (of its preparation, its auction or one of its deals) leaves the row of every
-- other batch as it was, whatever comes of it.
pub reports_frame :
    (env : Env) (j : Ident) (r : BatchRow) (op : Ident) (au : ClosedAuction) (fad : FinalizedDeal)
    (id : Ident) (dpr : DataPreparationResult) (w : World Db Message)
    → str_eq j au.batch_id ≡ false
    → str_eq j fad.batch_id ≡ false
    → str_eq j id ≡ false
    → AtRest (HasRow j r) w
    → AtRest (HasRow j r) (Events.batch_auctioned env op au w).1
      × AtRest (HasRow j r) (Events.batch_finalized_deal env op fad w).1
      × AtRest (HasRow j r) (Events.new_batch_prepared env id dpr w).1
reports_frame env j r op au fad id dpr w na nf ni h = (
  (batch_auctioned-Stays env op au (row_KeptAt j au.batch_id na r)).at w h,
  (batch_finalized_deal-Stays env op fad (row_KeptAt j fad.batch_id nf r)).at w h,
  (new_batch_prepared-Stays env id dpr (row_KeptAt j id ni r)).at w h,
)
