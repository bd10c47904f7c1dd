-- ===== src/Brokerd/Calls/Once.antt =====
-- A reported operation takes effect once.
use broker_core.Base.{◌≡◌, refl, Bool, none, List, contains, inl, inr, Bool-cases, not}
use broker_core.Effects.{
  Exec, World, Result, ok, err, panicked, Error, operation_exists, ◌>>=◌, ◌>>◌, require,
}
use broker_core.Effects.Keeps.{After, Keeps, >>=-After, exec_returning-After}
use broker_core.Effects.Fails.{
  Fails, deferred_tx-Fails, deferred_tx-ok, Fails-err, Fails-exec_returning, Fails-require,
  Fails-after_require, ok-after_require,
}
use broker_core.Effects.Stays.{AtRest}
use broker_core.Brokerd.Types.{Ident, ClosedAuction, FinalizedDeal}
use broker_core.Brokerd.Schema.{Db}
use broker_core.Brokerd.Schema.Statements
use broker_core.Brokerd.Env.{Env, Message}
use broker_core.Brokerd.Handlers.Events
use broker_core.Brokerd.Store.Deals
use broker_core.Brokerd.Invariant.Events.{auctioned_after-Keeps, finalized_after-Keeps}
use broker_core.Brokerd.Kept.{anything_KeptAt, HasRecorded, recorded_KeptAt, contains-append_self}
use broker_core.Brokerd.Calls.{Call, perform, serve}
use broker_core.Brokerd.Calls.Holds.{serve-AtRest, perform-Stays}
use broker_core.Brokerd.Calls.Results.{batch_auctioned-Atomic, batch_finalized_deal-Atomic}

-- OperationExists has recorded the operation, whether it was new or not.
records :
    (op : Ident) (d : Db) → HasRecorded op (Deals.recorded d (Statements.create_operation op d)).1
unfolding Statements.create_operation
records op d = elim (Bool-cases (contains d.operations op)) [
  | inl e ↦ rw e e
  | inr e ↦ rw e (contains-append_self d.operations op)
]

module _ {A : Type 0} (op : Ident) (f : Bool → Exec Db Message A) where
  recording-After :
      (w : World Db Message)
      → ((b : Bool) → Keeps (HasRecorded op) (f b))
      → After (λ _. Unit) (λ _ w'. HasRecorded op w'.db) ((Deals.operation_exists op >>= f) w)
  unfolding Deals.operation_exists
  recording-After w k =
      >>=-After (λ _. Unit) (λ _ w'. HasRecorded op w'.db) _ f w
        (exec_returning-After (λ _. Unit) _ _ w (λ fs. forget _ ((k _).at _ (records op w.db))))
    where
      forget :
          (r : Result A × World Db Message)
          → After (λ w'. HasRecorded op w'.db) (λ _ w'. HasRecorded op w'.db) r
          → After (λ _. Unit) (λ _ w'. HasRecorded op w'.db) r
      forget (ok a, w) h = h
      forget (err e, w) h = tt
      forget (panicked, w) h = tt

-- An operation that was recorded before is refused.
module _ {A : Type 0} (op : Ident) (m : Exec Db Message A) where
  refused :
      (w : World Db Message)
      → HasRecorded op w.db
      → Fails ((Deals.operation_exists op >>= λ b. require (not b) operation_exists >> m) w).0
  unfolding Deals.operation_exists Statements.create_operation
  refused w h = Fails-exec_returning _ _ w (λ fs. Fails-require _ _ operation_exists _ (rw h refl))

batch_auctioned-Fails :
    (env : Env) (op : Ident) (au : ClosedAuction) (w : World Db Message)
    → HasRecorded op w.db
    → Fails (Events.batch_auctioned env op au w).0
unfolding Events.batch_auctioned Events.auctioned
batch_auctioned-Fails env op au w h =
    Fails-after_require _ _ _ w (λ _. deferred_tx-Fails _ w (λ w' e. refused op _ w' (rw e h)))

batch_finalized_deal-Fails :
    (env : Env) (op : Ident) (fad : FinalizedDeal) (w : World Db Message)
    → HasRecorded op w.db
    → Fails (Events.batch_finalized_deal env op fad w).0
unfolding Events.batch_finalized_deal Events.finalized
batch_finalized_deal-Fails env op fad w h = deferred_tx-Fails _ w (λ w' e. refused op _ w' (rw e h))

-- A report that was accepted is recorded.
batch_auctioned-ok :
    (env : Env) (op : Ident) (au : ClosedAuction) (w : World Db Message)
    → (Events.batch_auctioned env op au w).0 ≡ ok tt
    → HasRecorded op (Events.batch_auctioned env op au w).1.db
unfolding Events.batch_auctioned Events.auctioned
batch_auctioned-ok env op au w h =
    ok-after_require (HasRecorded op) _ _ _ w tt
      (deferred_tx-ok (HasRecorded op) _ w tt (λ w'.
        recording-After op _ w' (λ b. auctioned_after-Keeps env au b (recorded_KeptAt op _))))
      h

batch_finalized_deal-ok :
    (env : Env) (op : Ident) (fad : FinalizedDeal) (w : World Db Message)
    → (Events.batch_finalized_deal env op fad w).0 ≡ ok tt
    → HasRecorded op (Events.batch_finalized_deal env op fad w).1.db
unfolding Events.batch_finalized_deal Events.finalized
batch_finalized_deal-ok env op fad w h =
    deferred_tx-ok (HasRecorded op) _ w tt
      (λ w'. recording-After op _ w' (λ b. finalized_after-Keeps env fad b (recorded_KeptAt op _)))
      h

-- No transaction is open after a report.
closed_after :
    (env : Env) (c : Call) (w : World Db Message)
    → w.snapshot ≡ none
    → (perform env c w).1.snapshot ≡ none
closed_after env c w s =
    ((perform-Stays {I = λ _. Unit} env anything_KeptAt c).at w
      (record { closed = s; holds = tt })).closed

auctioned-AtRest :
    (env : Env) (op : Ident) (au : ClosedAuction) (w : World Db Message)
    → w.snapshot ≡ none
    → (Events.batch_auctioned env op au w).0 ≡ ok tt
    → AtRest (HasRecorded op) (Events.batch_auctioned env op au w).1
unfolding perform
auctioned-AtRest env op au w s h = record {
  closed = closed_after env (Call.batch_auctioned op au) w s;
  holds = batch_auctioned-ok env op au w h;
}

finalized-AtRest :
    (env : Env) (op : Ident) (fad : FinalizedDeal) (w : World Db Message)
    → w.snapshot ≡ none
    → (Events.batch_finalized_deal env op fad w).0 ≡ ok tt
    → AtRest (HasRecorded op) (Events.batch_finalized_deal env op fad w).1
unfolding perform
finalized-AtRest env op fad w s h = record {
  closed = closed_after env (Call.batch_finalized_deal op fad) w s;
  holds = batch_finalized_deal-ok env op fad w h;
}

-- A report of an auction that was accepted takes effect once: after it and any further calls, a report
-- of an auction, this one or another, under the same operation id returns an error and leaves the
-- database as it is. No transaction is open before the report.
pub auctioned_once :
    (env : Env) (op : Ident) (au au' : ClosedAuction) (cs : List Call) (w : World Db Message)
    → w.snapshot ≡ none
    → (Events.batch_auctioned env op au w).0 ≡ ok tt
    → let w' = serve env cs (Events.batch_auctioned env op au w).1 in
      ((e : Error) × ((Events.batch_auctioned env op au' w').0 ≡ err e))
      × ((Events.batch_auctioned env op au' w').1.db ≡ w'.db)
auctioned_once env op au au' cs w s h =
    let rest = serve-AtRest env (recorded_KeptAt op) cs _ (auctioned-AtRest env op au w s h) in
    let (e, q) = Fails-err _ (batch_auctioned-Fails env op au' _ rest.holds) in
    ((e, q), (batch_auctioned-Atomic env op au').at _ e rest.closed q)

-- The same of a finalized deal: after an accepted report and any further calls, a report of a finalized
-- deal under the same operation id returns an error and leaves the database as it is. No transaction
-- is open before the report.
pub finalized_once :
    (env : Env) (op : Ident) (fad fad' : FinalizedDeal) (cs : List Call) (w : World Db Message)
    → w.snapshot ≡ none
    → (Events.batch_finalized_deal env op fad w).0 ≡ ok tt
    → let w' = serve env cs (Events.batch_finalized_deal env op fad w).1 in
      ((e : Error) × ((Events.batch_finalized_deal env op fad' w').0 ≡ err e))
      × ((Events.batch_finalized_deal env op fad' w').1.db ≡ w'.db)
finalized_once env op fad fad' cs w s h =
    let rest = serve-AtRest env (recorded_KeptAt op) cs _ (finalized-AtRest env op fad w s h) in
    let (e, q) = Fails-err _ (batch_finalized_deal-Fails env op fad' _ rest.holds) in
    ((e, q), (batch_finalized_deal-Atomic env op fad').at _ e rest.closed q)
