-- ===== src/Brokerd/Invariant/Create.antt =====
-- CreateStorageRequest and CreateBatch keep every invariant of the batch.
use broker_core.Base.{
  ℕ, String, ◌≡◌, ◌≢◌, refl, true, false, Option, none, some, List, [], ◌∷◌, ◌++◌, arith, str_eq,
  subst, inl, inr, Bool-cases,
}
use broker_core.Base.Rows.{exists_row}
use broker_core.Effects.{ok, panicked, batch_exists}
use broker_core.Effects.Keeps.{
  Keeps, Keeps-bind, Keeps-bind_of, Keeps-insert, Keeps-insert_returning, Keeps-require, Keeps-done,
  Keeps-lift, Returns-lift,
}
use broker_core.Effects.Tx.{Keeps-with_tx}
use broker_core.Effects.Stays.{Stays, Stays-bind, Stays-bind_lift, Stays-require, Stays-with_tx}
use broker_core.Brokerd.Types.{
  Ident, Batch, BatchStatus, RequestStatus, RemoteWallet, StorageRequest,
}
use broker_core.Brokerd.Schema.{BatchRow, RequestRow, TagRow, ManifestRow, WalletRow, Db}
use broker_core.Brokerd.Schema.Statements
use broker_core.Brokerd.Schema.Statements.{has_id}
use broker_core.Brokerd.Env.{Env}
use broker_core.Brokerd.Store.Convert.{batch_to_db}
use broker_core.Brokerd.Store.Create
use broker_core.Brokerd.Store.Create.{or_if_taken}
use broker_core.Brokerd.Mirror.{mirrors}
use broker_core.Brokerd.Invariant.{KeptAt}
use broker_core.Brokerd.Invariant.Move.{SameCore, side}

create_tag_total : (t : TagRow) (d : Db) → Statements.create_batch_tag t d ≢ panicked
unfolding Statements.create_batch_tag
create_tag_total t d e = ground arith

create_tag-SameCore :
    (t : TagRow) (d d' : Db) → Statements.create_batch_tag t d ≡ ok d' → SameCore d d'
unfolding Statements.create_batch_tag
create_tag-SameCore t d d' e = ground arith

create_manifest_total : (t : ManifestRow) (d : Db) → Statements.create_batch_manifest t d ≢ panicked
unfolding Statements.create_batch_manifest
create_manifest_total t d e = ground arith

create_manifest-SameCore :
    (t : ManifestRow) (d d' : Db) → Statements.create_batch_manifest t d ≡ ok d' → SameCore d d'
unfolding Statements.create_batch_manifest
create_manifest-SameCore t d d' e = ground arith

create_wallet_total :
    (t : WalletRow) (d : Db) → Statements.create_batch_remote_wallet t d ≢ panicked
unfolding Statements.create_batch_remote_wallet
create_wallet_total t d e = ground arith

create_wallet-SameCore :
    (t : WalletRow) (d d' : Db) → Statements.create_batch_remote_wallet t d ≡ ok d' → SameCore d d'
unfolding Statements.create_batch_remote_wallet
create_wallet-SameCore t d d' e = ground arith

create_batch_total :
    (r : BatchRow) (d : Db) → or_if_taken batch_exists (Statements.create_batch r d) ≢ panicked
unfolding Statements.create_batch
create_batch_total r d e = ground arith

-- What an insertion of a batch that succeeds has found and done.
create_batch-ok :
    (r : BatchRow) (d d' : Db)
    → or_if_taken batch_exists (Statements.create_batch r d) ≡ ok d'
    → (exists_row (has_id r.id) d.batches ≡ false)
      × (d' ≡ record d { batches = d.batches ++ r ∷ [] })
unfolding Statements.create_batch
create_batch-ok r d d' e = elim (Bool-cases (exists_row (has_id r.id) d.batches)) [
  | inl p ↦ cc (rw p at e)
  | inr p ↦ (p, ground (arith, p))
]

-- The status that new requests get mirrors the batch's.
pub initial_mirrors :
    (st : BatchStatus) (s : RequestStatus)
    → Create.initial_request_status st ≡ ok s
    → mirrors st s ≡ true
unfolding Create.initial_request_status
initial_mirrors st s e = ground arith

create_storage_request_total :
    (r : RequestRow) (d : Db) → Statements.create_storage_request r d ≢ panicked
unfolding Statements.create_storage_request
create_storage_request_total r d e = ground arith

module _ {I : Db → Type 0} (id : Ident) (k : KeptAt id I) where
  pub inserted_request :
      (r : RequestRow) (d d' : Db)
      → r.batch_id ≡ none
      → Statements.create_storage_request r d ≡ ok d'
      → I d
      → I d'
  unfolding Statements.create_storage_request
  inserted_request r d d' n e h =
      elim (Bool-cases (exists_row (λ x. str_eq x.id r.id) d.requests)) [
        | inl p ↦ cc (rw p at e)
        | inr p ↦ subst I (ground (arith, p)) (k.requesting r d n h)
      ]

  pub create_storage_request-Keeps :
      (env : Env) (br : StorageRequest) → Keeps I (Create.create_storage_request env br)
  unfolding Create.create_storage_request
  create_storage_request-Keeps env br =
      Keeps-insert _ (create_storage_request_total _) (λ d d' e h. inserted_request _ d d' refl e h)

  tags-Keeps : (ts : List (String × String)) → Keeps I (Create.create_tags id ts)
  unfolding Create.create_tags
  tags-Keeps [] = Keeps-done
  tags-Keeps ((key, v) ∷ ts) =
      Keeps-bind _ _
        (Keeps-insert _ (create_tag_total _)
          (λ d d' e h. side id k d d' (create_tag-SameCore _ d d' e) h))
        (λ _. tags-Keeps ts)

  manifest-Keeps : (m : Option (List ℕ)) → Keeps I (Create.create_manifest id m)
  unfolding Create.create_manifest
  manifest-Keeps none = Keeps-done
  manifest-Keeps (some m) =
      Keeps-insert _ (create_manifest_total _)
        (λ d d' e h. side id k d d' (create_manifest-SameCore _ d d' e) h)

  wallet-Keeps : (env : Env) (m : Option RemoteWallet) → Keeps I (Create.create_wallet env id m)
  unfolding Create.create_wallet
  wallet-Keeps env none = Keeps-done
  wallet-Keeps env (some m) =
      Keeps-insert _ (create_wallet_total _)
        (λ d d' e h. side id k d d' (create_wallet-SameCore _ d d' e) h)

batched :
    {I : Db → Type 0} (row : BatchRow) (k : KeptAt row.id I) (ids : List Ident) (s : RequestStatus)
    (d d' : Db)
    → mirrors row.status s ≡ true
    → or_if_taken batch_exists (Statements.create_batch row d) ≡ ok d'
    → I d
    → I (Statements.batch_update_storage_requests ids s row.id d')
batched row k ids s d d' m e h =
    let (p, q) = create_batch-ok row d d' e in rw q (k.batching row ids s d refl m p h)

pub insert_batch-Keeps :
    {I : Db → Type 0} (env : Env) (ba : Batch) (ids : List Ident) (manifest : Option (List ℕ))
    (wallet : Option RemoteWallet) (s : RequestStatus)
    → mirrors ba.status s ≡ true
    → KeptAt ba.id I
    → Keeps I (Create.insert_batch env ba ids manifest wallet s)
unfolding Create.insert_batch Create.assign_requests batch_to_db
insert_batch-Keeps env ba ids manifest wallet s m k =
    Keeps-insert_returning _ _ _ (create_batch_total (batch_to_db env.codec ba))
      (λ d d' e h. batched (batch_to_db env.codec ba) k ids s d d' m e h)
      (λ updated. Keeps-bind _ _ (Keeps-require _ _) (λ _.
        Keeps-bind _ _ (tags-Keeps ba.id k ba.tags) (λ _.
          Keeps-bind _ _ (manifest-Keeps ba.id k manifest) (λ _. wallet-Keeps ba.id k env wallet))))

pub create_batch-Keeps :
    {I : Db → Type 0} (env : Env) (ba : Batch) (ids : List Ident) (manifest : Option (List ℕ))
    (wallet : Option RemoteWallet)
    → KeptAt ba.id I
    → Keeps I (Create.create_batch env ba ids manifest wallet)
unfolding Create.create_batch
create_batch-Keeps {I} env ba ids manifest wallet k = Keeps-bind _ _ (Keeps-require _ _) (λ _.
    Keeps-bind_of (λ s. mirrors ba.status s ≡ true) _ _
      (Returns-lift _ (Create.initial_request_status ba.status) (initial_mirrors ba.status))
      (Keeps-lift _)
      (λ s m. Keeps-with_tx I _ (insert_batch-Keeps env ba ids manifest wallet s m k)))

-- The same for a batch that is created outside a transaction, whatever comes of it.
pub create_batch-Stays :
    {I : Db → Type 0} (env : Env) (ba : Batch) (ids : List Ident) (manifest : Option (List ℕ))
    (wallet : Option RemoteWallet)
    → KeptAt ba.id I
    → Stays I (Create.create_batch env ba ids manifest wallet)
unfolding Create.create_batch
create_batch-Stays env ba ids manifest wallet k = Stays-bind _ _ (Stays-require _ _) (λ _.
    Stays-bind_lift _ _ (λ s e.
      Stays-with_tx _
        (insert_batch-Keeps env ba ids manifest wallet s (initial_mirrors ba.status s e) k)))
