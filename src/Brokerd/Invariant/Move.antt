-- ===== src/Brokerd/Invariant/Move.antt =====
-- BatchToAuctioning, BatchError, BatchSuccess, AddDeals, SaveDeals and OperationExists keep every
-- invariant of the batch.
use broker_core.Base.{
  ℕ, String, ◌≡◌, ◌≢◌, refl, Bool, List, [], ◌∷◌, arith, inl, inr, eq_iff, contains, Bool-cases,
}
use broker_core.Base.Int.{ℤ}
use broker_core.Base.Rows.{select_one-test}
use broker_core.Effects.{ok, panicked, exec, query, ◌>>=◌, new_id}
use broker_core.Effects.Keeps.{
  Keeps, Keeps-pure, Keeps-raise, Keeps-exec, Keeps-exec-exec, Keeps-exec-exec_then, Keeps-insert,
  Keeps-query, Keeps-exec_returning, Keeps-bind, keeps_rules, Returns, Keeps-bind_of, query-After,
  Keeps-if, Keeps-gets, Keeps-new_id, Keeps-done, Keeps-require, Keeps-ok_query,
}
use broker_core.Effects.Tx.{Keeps-with_tx}
use broker_core.Brokerd.Types.{
  Ident, BatchStatus, RequestStatus, ClosedAuction, WinningBid, FinalizedDeal,
}
use broker_core.Brokerd.Schema.{BatchRow, RequestRow, DealRow, Db, UnpinType, UnpinJobRow}
use broker_core.Brokerd.Schema.Statements
use broker_core.Brokerd.Schema.Statements.{has_id}
use broker_core.Brokerd.Env.{Env, Message}
use broker_core.Brokerd.Store.Move
use broker_core.Brokerd.Store.Deals
use broker_core.Brokerd.Invariant.{KeptAt}

pub get_batch_total : (id : Ident) (d : Db) → Statements.get_batch id d ≢ panicked
unfolding Statements.get_batch
get_batch_total id d e = ground arith

pub Keeps-get_batch :
    {I : Db → Type 0} (id : Ident) → Keeps {M = Message} I (query (Statements.get_batch id))
Keeps-get_batch id = Keeps-query _ (get_batch_total id)

pub found_id : (id : Ident) (d : Db) (r : BatchRow) → Statements.get_batch id d ≡ ok r → r.id ≡ id
unfolding Statements.get_batch
found_id id d r e = (eq_iff r.id id).0 (select_one-test (has_id id) d.batches r (ground arith))

-- The batch that is read has the id that was asked for.
pub get_batch-Returns :
    (id : Ident) → Returns {M = Message} (λ r. r.id ≡ id) (query (Statements.get_batch id))
get_batch-Returns id = record {
  at = λ w.
      query-After (λ _. Unit) (λ r _. r.id ≡ id) (Statements.get_batch id) w
        (get_batch_total id w.db) (λ r fs e. found_id id w.db r e);
}

create_unpin_job_total : (j : UnpinJobRow) (d : Db) → Statements.create_unpin_job j d ≢ panicked
unfolding Statements.create_unpin_job
create_unpin_job_total j d e = ground arith

-- The tables that invariants speak of are as they were.
abbrev pub SameCore : Db → Db → Type 0
SameCore d d' =
    (d'.batches ≡ d.batches) × (d'.requests ≡ d.requests) × (d'.operations ≡ d.operations)

create_unpin_job-SameCore :
    (j : UnpinJobRow) (d d' : Db) → Statements.create_unpin_job j d ≡ ok d' → SameCore d d'
unfolding Statements.create_unpin_job
create_unpin_job-SameCore j d d' e = ground arith

create_deal-SameCore : (r : DealRow) (d : Db) → SameCore d (Statements.create_deal r d)
unfolding Statements.create_deal
create_deal-SameCore r d = (refl, refl, refl)

update_deals-SameCore :
    (i : Ident) (sp : String) (n : ℤ) (x : ℕ) (e : String) (d : Db)
    → SameCore d (Statements.update_deals i sp n x e d)
unfolding Statements.update_deals
update_deals-SameCore i sp n x e d = (refl, refl, refl)

recorded-Keeps :
    {I : Db → Type 0} (id : Ident) (k : KeptAt id I) (op : Ident) (d : Db)
    → I d
    → I (Deals.recorded d (Statements.create_operation op d)).1
unfolding Statements.create_operation
recorded-Keeps id k op d h = elim (Bool-cases (contains d.operations op)) [
  | inl e ↦ rw e h
  | inr e ↦ rw e (k.recording op d h)
]

module _ {I : Db → Type 0} (id : Ident) (k : KeptAt id I) where
  pub side : (d d' : Db) → SameCore d d' → I d → I d'
  side d d' s h = k.side d d' s.0 s.1 s.2 h

  create_unpin_job-Keeps :
      (u : Ident) (c : String) (t : UnpinType) → Keeps I (Move.create_unpin_job u c t)
  unfolding Move.create_unpin_job
  create_unpin_job-Keeps u c t = Keeps-bind _ _ (Keeps-gets _) (λ now.
      Keeps-insert _ (create_unpin_job_total _)
        (λ d d' e h. side d d' (create_unpin_job-SameCore _ d d' e) h))

  pub batch_to_auctioning-Keeps :
      (env : Env) (c : String) (n : ℕ) → Keeps I (Move.batch_to_auctioning env id c n)
  unfolding Move.batch_to_auctioning
  batch_to_auctioning-Keeps env c n =
      Keeps-with_tx I _ (Keeps-exec-exec _ _ (k.auctioning (env.codec.cid_string c) n))

  unpin_one-Keeps :
      (env : Env) (c : String) (t : UnpinType)
      → Keeps I (new_id env.id >>= λ u. Move.create_unpin_job u c t)
  unpin_one-Keeps env c t = search (keeps_rules, create_unpin_job-Keeps)

  move_to_error-Keeps :
      (env : Env) (ba : BatchRow) (e : String) (rebatch : Bool)
      → Keeps I (Move.move_to_error env ba id e rebatch)
  unfolding Move.move_to_error
  move_to_error-Keeps env ba e rebatch =
      Keeps-exec-exec_then _ _ _ (λ d h. k.erroring e _ d (ground arith) h)
        (Keeps-bind _ _ (Keeps-if rebatch _ _ (Keeps-exec _ (k.rebatching e)) Keeps-done) (λ _.
          Keeps-bind _ _ (Keeps-new_id env.id) (λ u.
            Keeps-bind _ _
              (Keeps-if ba.disallow_rebatching _ _ Keeps-done
                (create_unpin_job-Keeps u ba.payload_cid UnpinType.batch))
              (λ _. Keeps-ok_query _))))

  batch_error_by-Keeps :
      (env : Env) (ba : BatchRow) (e : String) (rebatch : Bool) (st : BatchStatus)
      → Keeps I (Move.batch_error_by env ba id e rebatch st)
  unfolding Move.batch_error_by
  batch_error_by-Keeps env ba e rebatch BatchStatus.auctioning =
      Keeps-bind _ _ (Keeps-require _ _) (λ _. move_to_error-Keeps env ba e rebatch)
  batch_error_by-Keeps env ba e rebatch BatchStatus.deal_making =
      Keeps-bind _ _ (Keeps-require _ _) (λ _. move_to_error-Keeps env ba e rebatch)
  batch_error_by-Keeps env ba e rebatch BatchStatus.error = Keeps-ok_query _
  batch_error_by-Keeps env ba e rebatch BatchStatus.success = Keeps-pure []
  batch_error_by-Keeps env ba e rebatch BatchStatus.unknown = Keeps-raise _
  batch_error_by-Keeps env ba e rebatch BatchStatus.preparing = Keeps-raise _

  pub batch_error-Keeps :
      (env : Env) (e : String) (rebatch : Bool) → Keeps I (Move.batch_error env id e rebatch)
  unfolding Move.batch_error
  batch_error-Keeps env e rebatch =
      Keeps-with_tx I _ (
        Keeps-bind _ _ (Keeps-get_batch id) (λ ba. batch_error_by-Keeps env ba e rebatch ba.status))

  unpin_data-Keeps : (env : Env) (rs : List RequestRow) → Keeps I (Move.unpin_data env rs)
  unfolding Move.unpin_data
  unpin_data-Keeps env [] = Keeps-done
  unpin_data-Keeps env (r ∷ rs) = Keeps-bind _ _ (Keeps-new_id env.id) (λ u.
      Keeps-bind _ _ (create_unpin_job-Keeps u r.data_cid UnpinType.data_cid)
        (λ _. unpin_data-Keeps env rs))

  unpin_all-Keeps :
      (env : Env) (ba : BatchRow) (rs : List RequestRow) → Keeps I (Move.unpin_all env ba rs)
  unfolding Move.unpin_all
  unpin_all-Keeps env ba rs = Keeps-if ba.disallow_rebatching _ _ Keeps-done (
      Keeps-bind _ _ (unpin_data-Keeps env rs)
        (λ _. unpin_one-Keeps env ba.payload_cid UnpinType.batch))

  pub batch_success-Keeps : (env : Env) → Keeps I (Move.batch_success env id)
  unfolding Move.batch_success
  batch_success-Keeps env = Keeps-with_tx I _ (
      Keeps-bind _ _ (Keeps-get_batch id) (λ ba.
        Keeps-exec-exec_then _ _ _
          (λ d h. k.moving BatchStatus.success RequestStatus.success d refl h)
          (Keeps-bind _ _ (Keeps-ok_query _) (λ rs. unpin_all-Keeps env ba rs))))

  create_deal-Keeps : (r : DealRow) → Keeps {M = Message} I (exec (Statements.create_deal r))
  create_deal-Keeps r =
      Keeps-exec _ (λ d h. side d (Statements.create_deal r d) (create_deal-SameCore r d) h)

  add_winners-Keeps :
      (au : ClosedAuction) (ex : List String) (bs : List (Ident × WinningBid))
      → Keeps I (Deals.add_winners au ex bs)
  unfolding Deals.add_winners
  add_winners-Keeps au ex [] = Keeps-pure []
  add_winners-Keeps au ex ((i, b) ∷ bs) =
      Keeps-if (contains ex b.storage_provider_id) _ _ (add_winners-Keeps au ex bs) (
        Keeps-bind _ _ (create_deal-Keeps _)
          (λ _. Keeps-bind _ _ (add_winners-Keeps au ex bs) (λ ws. Keeps-pure _)))

  to_deal_making-Keeps :
      (j : Ident) (st : BatchStatus) → j ≡ id → Keeps I (Deals.to_deal_making id j st)
  unfolding Deals.to_deal_making
  to_deal_making-Keeps j BatchStatus.auctioning e = rw e (
      Keeps-exec-exec _ _
        (λ d h. k.moving BatchStatus.deal_making RequestStatus.deal_making d refl h))
  to_deal_making-Keeps j _ e = Keeps-done

  excluded_for-Keeps : (ba : BatchRow) → Keeps I (Deals.excluded_for ba)
  unfolding Deals.excluded_for
  excluded_for-Keeps ba = Keeps-if _ _ _ (Keeps-ok_query _) (Keeps-pure [])

  pub save_deals-Keeps : (fad : FinalizedDeal) → Keeps I (Deals.save_deals fad)
  unfolding Deals.save_deals
  save_deals-Keeps fad =
      Keeps-bind _ _
        (Keeps-exec_returning _ (λ d h. side d _ (update_deals-SameCore _ _ _ _ _ d) h))
        (λ n. Keeps-require _ _)

  pub operation_exists-Keeps : (op : Ident) → Keeps I (Deals.operation_exists op)
  unfolding Deals.operation_exists
  operation_exists-Keeps op = Keeps-exec_returning _ (λ d h. recorded-Keeps id k op d h)

pub add_deals-Keeps :
    {I : Db → Type 0} (env : Env) (au : ClosedAuction)
    → KeptAt au.batch_id I
    → Keeps I (Deals.add_deals env au)
unfolding Deals.add_deals
add_deals-Keeps {I} env au k = Keeps-with_tx I _ (
    Keeps-bind_of (λ r. r.id ≡ au.batch_id) _ _ (get_batch-Returns au.batch_id)
      (Keeps-get_batch au.batch_id)
      (λ ba p. Keeps-bind _ _ (Keeps-require _ _) (λ _.
        Keeps-bind _ _ (excluded_for-Keeps au.batch_id k ba) (λ ex.
          Keeps-bind _ _ (add_winners-Keeps au.batch_id k au ex _) (λ ws.
            Keeps-bind _ _ (to_deal_making-Keeps au.batch_id k ba.id ba.status p)
              (λ _. Keeps-pure ws))))))
