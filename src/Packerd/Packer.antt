-- ===== src/Packerd/Packer.antt =====
-- The packer (cmd/packerd/packer/packer.go): ReadyToBatch, which adds the requests of one message in one
-- transaction, and pack, one round of its daemon. What createDAGForBatch makes of the requests with the
-- IPFS libraries and the CAR uploader is a parameter.
use broker_core.Base.{
  ℕ, String, Bool, true, false, Option, none, some, List, [], ◌∷◌, not, nat_eq, str_eq, map, length,
}
use broker_core.Effects.{
  message, unavailable, Result, ok, err, pure, lift, done, require, publish, deferred_tx, logged,
  ◌>>=◌, ◌>>◌,
}
use broker_core.Packerd.Schema.{Status, BatchRow, RequestRow}
use broker_core.Packerd.Store
use broker_core.Packerd.Store.{Env, Message, Action, Command}

-- The DAG of a batch.
pub record Dag : Type 0 where
  pub root : String
  pub manifest : List ℕ
  pub car_url : String

-- `aggregate` is createDAGForBatch and `is_url` is url.ParseRequestURI without an error.
pub record Packer : Type 0 where
  pub store : Env
  pub retry_delay : ℕ
  pub aggregate : List RequestRow → Option Dag
  pub is_url : String → Bool

pub record ReadyToBatchData : Type 0 where
  pub storage_request_id : String
  pub data_cid : String
  pub origin : String

abbrev pub size_or_error : Option ℕ → Result ℕ
size_or_error none = err unavailable
size_or_error (some n) = ok n

-- The loop of ReadyToBatch.
unfoldable pub add_all : Env → String → List ReadyToBatchData → Command
add_all env op [] = done
add_all env op (x ∷ xs) = do
  size ← lift (size_or_error (env.size_of x.data_cid))
  Store.add_storage_request_to_open_batch env op x.storage_request_id x.data_cid size x.origin
  add_all env op xs

-- ReadyToBatch
unfoldable pub ready_to_batch : Env → String → List ReadyToBatchData → Command
ready_to_batch env op xs = deferred_tx (add_all env op xs)

-- The loop of PublishMsgNewBatchCreated.
unfoldable pub check_ids : List String → Command
check_ids [] = done
check_ids (i ∷ is) = do
  require (not (str_eq i "")) (message "storage-request-id is empty")
  check_ids is

abbrev pub is_nil : List ℕ → Bool
is_nil [] = true
is_nil (x ∷ xs) = false

unfoldable pub publish_new_batch_created : Packer → Message → Command
publish_new_batch_created p m = do
  require (not (str_eq m.batch_id "")) (message "batch-id is empty")
  require (not (str_eq m.batch_cid "")) (message "batch-cid is undefined")
  require (not (str_eq m.origin "")) (message "origin is empty")
  require (not (is_nil m.manifest)) (message "manifest is empty")
  require (not (nat_eq m.batch_size 0)) (message "batch size should be positive")
  check_ids m.storage_request_ids
  require (not (str_eq m.car_url "")) (message "car url is empty")
  require (p.is_url m.car_url) (message "car url is invalid")
  publish m

abbrev pub dag_or_error : Option Dag → Result Dag
dag_or_error none = err unavailable
dag_or_error (some d) = ok d

-- What pack does with the next ready batch: the number of its requests.
unfoldable pub pack_next : Packer → Option (BatchRow × List RequestRow) → Action ℕ
pack_next p none = pure 0
pack_next p (some (b, srs)) = do
  dag ← lift (dag_or_error (p.aggregate srs))
  Store.move_to_status b.batch_id p.retry_delay Status.finished
  publish_new_batch_created p (record {
    batch_id = b.batch_id;
    batch_cid = dag.root;
    batch_size = b.total_size;
    storage_request_ids = map (λ r. r.storage_request_id) srs;
    origin = b.origin;
    manifest = dag.manifest;
    car_url = dag.car_url;
  })
  pure (length srs)

-- pack
unfoldable pub pack : Packer → Action ℕ
pack p = do
  logged (Store.time_based_batch_close p.store)
  next ← Store.get_next_ready_batch
  pack_next p next
