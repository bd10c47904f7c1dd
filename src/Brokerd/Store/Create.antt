-- ===== src/Brokerd/Store/Create.antt =====
-- CreateStorageRequest and CreateBatch (cmd/brokerd/store/store.go).
use broker_core.Base.{ℕ, String, Option, none, some, List, [], ◌∷◌, not, ltb, length}
use broker_core.Effects.{
  Error, message, batch_exists, unique_violation, unknown_storage_request, Result, ok, err, lift,
  done, require, exec_returning, insert, with_tx, ◌>>=◌, ◌>>◌,
}
use broker_core.Brokerd.Types.{
  Ident, Batch, BatchStatus, RequestStatus, StorageRequest, RemoteWallet,
}
use broker_core.Brokerd.Schema.{Db}
use broker_core.Brokerd.Schema.Statements
use broker_core.Brokerd.Schema.Statements.{is_deal_of}
use broker_core.Brokerd.Env.{Env, Action, Command, filled}
use broker_core.Brokerd.Store.Read.{slice_diff}
use broker_core.Brokerd.Store.Convert.{wallet_to_db, batch_to_db}

-- An insertion where a given error stands for a violated key.
abbrev pub or_if_taken : Error → Result Db → Result Db
or_if_taken e (err unique_violation) = err e
or_if_taken e r = r

-- CreateStorageRequest
unfoldable pub create_storage_request : Env → StorageRequest → Command
create_storage_request env br = insert (
    Statements.create_storage_request (record {
      id = br.id;
      data_cid = env.codec.cid_string br.data_cid;
      batch_id = none;
      origin = br.origin;
      rebatch_count = 0;
      error_cause = "";
      status = br.status;
    }))

-- The status of the requests of a new batch mirrors the batch's.
unfoldable pub initial_request_status : BatchStatus → Result RequestStatus
initial_request_status BatchStatus.preparing = ok RequestStatus.preparing
initial_request_status BatchStatus.auctioning = ok RequestStatus.auctioning
initial_request_status _ = err (message "unexpected batch initial status")

unfoldable pub create_tags : Ident → List (String × String) → Command
create_tags id [] = done
create_tags id ((k, v) ∷ rest) = do
  insert (Statements.create_batch_tag (record { batch_id = id; key = k; value = v }))
  create_tags id rest

unfoldable pub create_manifest : Ident → Option (List ℕ) → Command
create_manifest id none = done
create_manifest id (some m) =
    insert (Statements.create_batch_manifest (record { batch_id = id; manifest = m }))

unfoldable pub create_wallet : Env → Ident → Option RemoteWallet → Command
create_wallet env id none = done
create_wallet env id (some rw) =
    insert (Statements.create_batch_remote_wallet (wallet_to_db env.codec id rw))

-- BatchUpdateStorageRequests changes the rows and returns their ids.
unfoldable pub assign_requests : List Ident → RequestStatus → Ident → Action (List Ident)
assign_requests ids s id =
    exec_returning
      (λ d. (Statements.updated_ids ids d, Statements.batch_update_storage_requests ids s id d))

-- The transaction of CreateBatch, with the status that the requests get.
unfoldable pub insert_batch :
    Env → Batch → List Ident → Option (List ℕ) → Option RemoteWallet → RequestStatus → Command
insert_batch env ba ids manifest rw status = do
  insert (λ d. or_if_taken batch_exists (Statements.create_batch (batch_to_db env.codec ba) d))
  updated ← assign_requests ids status ba.id
  require (not (ltb (length updated) (length ids)))
      (unknown_storage_request (slice_diff ids updated))
  create_tags ba.id ba.tags
  create_manifest ba.id manifest
  create_wallet env ba.id rw

-- CreateBatch
unfoldable pub create_batch :
    Env → Batch → List Ident → Option (List ℕ) → Option RemoteWallet → Command
create_batch env ba ids manifest rw = do
  require (filled ba.id) (message "batch id is empty")
  status ← lift (initial_request_status ba.status)
  with_tx (insert_batch env ba ids manifest rw status)
