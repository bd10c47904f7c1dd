-- ===== src/Brokerd/Reported.antt =====
-- Which storage requests CreateBatch reports as unknown: its error has sliceDiff of the requests asked for
-- and those that were updated.
use broker_core.Base.{
  ℕ, String, Bool, true, false, Option, none, some, subst, if◌then◌else◌, ◌≡◌, refl, List, [], ◌∷◌,
  map, contains, inl, inr, Bool-cases,
}
use broker_core.Base.Rows.{select}
use broker_core.Effects.{
  Error, unknown_storage_request, batch_exists, unique_violation, World, ok, err,
}
use broker_core.Effects.Errors.{
  Came, Errs, Any, Errs-bind, Errs-done, Errs-require, Errs-lift, Errs-insert, Errs-exec_returning,
  Errs-with_tx,
}
use broker_core.Brokerd.Types.{Ident, Batch, BatchStatus, RequestStatus, RemoteWallet}
use broker_core.Brokerd.Env.{Env, Message}
use broker_core.Brokerd.Store.Create.{
  or_if_taken, create_tags, create_manifest, create_wallet, assign_requests, insert_batch,
  initial_request_status, create_batch,
}
use broker_core.Brokerd.Schema.Statements
use broker_core.Brokerd.Schema.{RequestRow, Db}
use broker_core.Brokerd.Schema.Statements.{updated_ids}
use broker_core.Brokerd.Store.Read.{slice_diff}

none_reported :
    (ids : List Ident) (rs : List RequestRow)
    → slice_diff ids (map (λ r. r.id) (select (λ r. contains ids r.id) rs)) ≡ []
unfolding slice_diff select
none_reported ids [] = refl
none_reported ids (r ∷ rs) = elim (Bool-cases (contains ids r.id)) [
  | inl e ↦ rw (e, e) (none_reported ids rs)
  | inr e ↦ rw e (none_reported ids rs)
]

slice_diff-updated_ids : (ids : List Ident) (d : Db) → slice_diff ids (updated_ids ids d) ≡ []
unfolding updated_ids
slice_diff-updated_ids ids d = none_reported ids d.requests

-- An error that names no storage request as unknown.
abbrev IsBlank : Error → Type 0
IsBlank (unknown_storage_request us) = us ≡ []
IsBlank _ = Unit

taken-IsBlank :
    {D : Type 0} (b : Bool) (d : D) → Came Any IsBlank (if b then err unique_violation else ok d)
taken-IsBlank true d = tt
taken-IsBlank false d = tt

create_tags-Errs :
    (id : Ident) (ts : List (String × String)) → Errs {M = Message} Any IsBlank (create_tags id ts)
unfolding create_tags Statements.create_batch_tag
create_tags-Errs id [] = Errs-done IsBlank
create_tags-Errs id ((k, v) ∷ ts) =
    Errs-bind Any Any IsBlank _ _ (Errs-insert IsBlank tt _ (λ d. taken-IsBlank _ _))
      λ _ _. create_tags-Errs id ts

create_manifest-Errs :
    (id : Ident) (m : Option (List ℕ)) → Errs {M = Message} Any IsBlank (create_manifest id m)
unfolding create_manifest Statements.create_batch_manifest
create_manifest-Errs id none = Errs-done IsBlank
create_manifest-Errs id (some m) = Errs-insert IsBlank tt _ (λ d. taken-IsBlank _ _)

create_wallet-Errs :
    (env : Env) (id : Ident) (r : Option RemoteWallet) → Errs Any IsBlank (create_wallet env id r)
unfolding create_wallet Statements.create_batch_remote_wallet
create_wallet-Errs env id none = Errs-done IsBlank
create_wallet-Errs env id (some r) = Errs-insert IsBlank tt _ (λ d. taken-IsBlank _ _)

-- The row of the batch; a taken id has an error of its own.
new_row-IsBlank :
    (b : Bool) (d : Db)
    → Came Any IsBlank (or_if_taken batch_exists (if b then err unique_violation else ok d))
new_row-IsBlank true d = tt
new_row-IsBlank false d = tt

insert_batch-Errs :
    (env : Env) (ba : Batch) (ids : List Ident) (m : Option (List ℕ)) (r : Option RemoteWallet)
    (s : RequestStatus)
    → Errs Any IsBlank (insert_batch env ba ids m r s)
unfolding insert_batch assign_requests Statements.create_batch
insert_batch-Errs env ba ids m r s =
    Errs-bind Any Any IsBlank _ _ (Errs-insert IsBlank tt _ (λ d. new_row-IsBlank _ _)) λ _ _.
      Errs-bind (λ us. slice_diff ids us ≡ []) Any IsBlank _ _
        (Errs-exec_returning IsBlank tt _ _ (slice_diff-updated_ids ids))
        λ us e. Errs-bind Any Any IsBlank _ _ (Errs-require IsBlank _ _ e) λ _ _.
          Errs-bind Any Any IsBlank _ _ (create_tags-Errs ba.id ba.tags) λ _ _.
            Errs-bind Any Any IsBlank _ _ (create_manifest-Errs ba.id m)
              λ _ _. create_wallet-Errs env ba.id r

initial_status-IsBlank : (s : BatchStatus) → Came Any IsBlank (initial_request_status s)
unfolding initial_request_status
initial_status-IsBlank BatchStatus.unknown = tt
initial_status-IsBlank BatchStatus.preparing = tt
initial_status-IsBlank BatchStatus.auctioning = tt
initial_status-IsBlank BatchStatus.deal_making = tt
initial_status-IsBlank BatchStatus.success = tt
initial_status-IsBlank BatchStatus.error = tt

create_batch-Errs :
    (env : Env) (ba : Batch) (ids : List Ident) (m : Option (List ℕ)) (r : Option RemoteWallet)
    → Errs Any IsBlank (create_batch env ba ids m r)
unfolding create_batch
create_batch-Errs env ba ids m r =
    Errs-bind Any Any IsBlank _ _ (Errs-require IsBlank _ _ tt) λ _ _.
      Errs-bind Any Any IsBlank _ _ (Errs-lift Any IsBlank _ (initial_status-IsBlank ba.status))
        λ s _. Errs-with_tx IsBlank tt Any _ (insert_batch-Errs env ba ids m r s)

-- If CreateBatch returns the error for unknown storage requests, the list of them in it is empty, whatever
-- requests it was given, whichever of them exist and whatever else fails.
pub create_batch_reports_none :
    (env : Env) (ba : Batch) (ids : List Ident) (m : Option (List ℕ)) (r : Option RemoteWallet)
    (w : World Db Message) (us : List Ident)
    → (create_batch env ba ids m r w).0 ≡ err (unknown_storage_request us)
    → us ≡ []
create_batch_reports_none env ba ids m r w us e =
    subst (λ x. Came Any IsBlank x) e ((create_batch-Errs env ba ids m r).at w)
