-- ===== src/Brokerd/Calls/Results.antt =====
-- What an error leaves behind.
use broker_core.Base.{ℕ, String, ◌≡◌, Bool, true, false, Option, none, List}
use broker_core.Effects.{World, err, Error, done}
use broker_core.Effects.Stays.{
  Atomic, Atomic-bind, Atomic-pure, Atomic-deferred_tx, Atomic-with_tx, Stays-bind, Stays-require,
  Stays-new_id, Stays-lift, Stays-gets,
}
use broker_core.Brokerd.Types.{
  Ident, PreparedCar, BatchMetadata, RemoteWallet, DataPreparationResult, ClosedAuction,
  FinalizedDeal, Batch,
}
use broker_core.Brokerd.Schema.{Db}
use broker_core.Brokerd.Env.{Env, Message}
use broker_core.Brokerd.Handlers.Requests
use broker_core.Brokerd.Handlers.Events
use broker_core.Brokerd.Store.Create
use broker_core.Brokerd.Calls.{Call, perform}
use broker_core.Brokerd.Calls.Holds.{check_ids-Stays}

abbrev pub is_create : Call → Bool
is_create (Call.create c o) = true
is_create _ = false

create_batch-Atomic :
    (env : Env) (ba : Batch) (ids : List Ident) (m : Option (List ℕ)) (wallet : Option RemoteWallet)
    → Atomic (Create.create_batch env ba ids m wallet)
unfolding Create.create_batch
create_batch-Atomic env ba ids m wallet =
    Atomic-bind _ _ (λ d. Stays-require _ _)
      (λ _. Atomic-bind _ _ (λ d. Stays-lift _) (λ s. Atomic-with_tx _))

create_new_batch-Atomic :
    (env : Env) (id c : Ident) (size : ℕ) (ids : List Ident) (origin : String) (m : Option (List ℕ))
    (url : String)
    → Atomic (Requests.create_new_batch env id c size ids origin m url)
unfolding Requests.create_new_batch
create_new_batch-Atomic env id c size ids origin m url =
    Atomic-bind _ _ (λ d. Stays-require _ _)
      (λ _.
        Atomic-bind _ _ (λ d. Stays-require _ _)
          (λ _.
            Atomic-bind _ _ (λ d. Stays-require _ _)
              (λ _.
                Atomic-bind _ _ (λ d. check_ids-Stays ids)
                  (λ _. Atomic-pure _ _ (create_batch-Atomic env _ ids m none)))))

create_prepared-Atomic :
    (env : Env) (c : Ident) (pc : PreparedCar) (meta : BatchMetadata) (wallet : Option RemoteWallet)
    → Atomic (Requests.create_prepared env c pc meta wallet)
unfolding Requests.create_prepared
create_prepared-Atomic env c pc meta wallet =
    Atomic-bind _ _ (λ d. Stays-require _ _)
      (λ _.
        Atomic-bind _ _ (λ d. Stays-require _ _)
          (λ _.
            Atomic-bind _ _ (λ d. Stays-new_id env.id)
              (λ n.
                Atomic-bind _ _ (λ d. Stays-lift _)
                  (λ off.
                    Atomic-bind _ _ (λ d. Stays-gets _)
                      (λ now.
                        Atomic-bind _ _ (λ d. Stays-lift _)
                          (λ dl.
                            Atomic-bind _ _ (λ d. Stays-new_id env.id)
                              (λ id. Atomic-deferred_tx _)))))))

new_batch_prepared-Atomic :
    (env : Env) (id : Ident) (dpr : DataPreparationResult)
    → Atomic (Events.new_batch_prepared env id dpr)
unfolding Events.new_batch_prepared Events.validate
new_batch_prepared-Atomic env id dpr =
    Atomic-bind _ _ (λ d. Stays-require _ _)
      (λ _.
        Atomic-bind _ _ (λ d. Stays-bind _ _ (Stays-require _ _) (λ _. Stays-require _ _))
          (λ _. Atomic-deferred_tx _))

pub batch_auctioned-Atomic :
    (env : Env) (op : Ident) (au : ClosedAuction) → Atomic (Events.batch_auctioned env op au)
unfolding Events.batch_auctioned
batch_auctioned-Atomic env op au =
    Atomic-bind _ _ (λ d. Stays-require _ _) (λ _. Atomic-deferred_tx _)

pub batch_finalized_deal-Atomic :
    (env : Env) (op : Ident) (fad : FinalizedDeal) → Atomic (Events.batch_finalized_deal env op fad)
unfolding Events.batch_finalized_deal
batch_finalized_deal-Atomic env op fad = Atomic-deferred_tx _

perform-Atomic : (env : Env) (c : Call) → is_create c ≡ false → Atomic (perform env c)
unfolding perform done
perform-Atomic env (Call.create c o) n = cc
perform-Atomic env (Call.create_prepared c pc m w) n =
    Atomic-pure _ _ (create_prepared-Atomic env c pc m w)
perform-Atomic env (Call.create_new_batch id c s ids o m u) n =
    Atomic-pure _ _ (create_new_batch-Atomic env id c s ids o m u)
perform-Atomic env (Call.new_batch_prepared id dpr) n = new_batch_prepared-Atomic env id dpr
perform-Atomic env (Call.batch_auctioned op au) n = batch_auctioned-Atomic env op au
perform-Atomic env (Call.batch_finalized_deal op fad) n = batch_finalized_deal-Atomic env op fad

-- A call other than Create that returns an error has left the database as it was before it, wherever
-- it failed.
pub perform-err :
    (env : Env) (c : Call) (w : World Db Message) (e : Error)
    → is_create c ≡ false
    → w.snapshot ≡ none
    → (perform env c w).0 ≡ err e
    → (perform env c w).1.db ≡ w.db
perform-err env c w e n s h = (perform-Atomic env c n).at w e s h
