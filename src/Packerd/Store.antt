-- ===== src/Packerd/Store.antt =====
-- The operations of cmd/packerd/store/store.go, and ReadyToBatch of cmd/packerd/packer/packer.go, which
-- adds the requests of one message in one transaction.
use broker_core.Base.{
  ℕ, ◌+◌, ◌*◌, ◌^◌, String, Option, none, some, List, not, leb, nat_eq, str_eq, if◌then◌else◌,
}
use broker_core.Base.Rows.{count_rows}
use broker_core.Effects.{
  message, unique_violation, operation_exists, Result, ok, err, Exec, Done, pure, gets, done,
  require, exec, exec_returning, query, insert, new_id, with_tx, ◌>>=◌, ◌>>◌,
}
use broker_core.Packerd.Schema
use broker_core.Packerd.Schema.{Status, BatchRow, RequestRow, Db, open_batch, is_batch}

-- The fields of Store, newID, and what the IPFS node says of the size of a cid's data, if it has it.
pub record Env : Type 0 where
  pub batch_max_size : ℕ
  pub batch_min_size : ℕ
  pub batch_min_waiting : ℕ
  pub batch_wait_scaling_factor : ℕ
  pub id : ℕ → String
  pub size_of : String → Option ℕ
  pub cid_string : String → String

-- The message NewBatchCreated.
pub record Message : Type 0 where
  pub batch_id : String
  pub batch_cid : String
  pub batch_size : ℕ
  pub storage_request_ids : List String
  pub origin : String
  pub manifest : List ℕ
  pub car_url : String

abbrev pub Action : Type 0 → Type 0
Action A = Exec Db Message A

abbrev pub Command : Type 0
Command = Done Db Message

-- stuckSeconds, in nanoseconds
abbrev pub stuck : ℕ
stuck = 3600 * 10 ^ 9

unfoldable pub create_open : Env → String → Action BatchRow
create_open env origin = do
  id ← new_id env.id
  now ← gets (λ w. w.now)
  insert (Schema.create_open_batch id origin now)
  pure (open_batch id origin now)

unfoldable pub or_create : Env → String → Option BatchRow → Action BatchRow
or_create env origin none = create_open env origin
or_create env origin (some b) = pure b

abbrev pub exists_if_taken : Result Db → Result Db
exists_if_taken (err unique_violation) = err operation_exists
exists_if_taken r = r

-- The request is added to the batch, which becomes ready when it is large enough.
unfoldable pub add_to : Env → RequestRow → BatchRow → Command
add_to env r ob = do
  now ← gets (λ w. w.now)
  insert (λ d. exists_if_taken (Schema.add_storage_request_in_batch r d))
  exec (Schema.update_batch_size ob.batch_id (ob.total_size + r.size) now)
  if leb env.batch_min_size (ob.total_size + r.size)
      then exec (Schema.move_batch_to_status ob.batch_id Status.ready now now)
      else done

-- The transaction of AddStorageRequestToOpenBatch.
unfoldable pub add_in_tx : Env → String → String → String → ℕ → String → Command
add_in_tx env op sr data_cid size origin = do
  found ← query (λ d. ok (Schema.find_open_batch_with_space env.batch_max_size size origin d))
  ob ← or_create env origin found
  add_to env
      (record {
        operation_id = op;
        storage_request_id = sr;
        data_cid = env.cid_string data_cid;
        batch_id = ob.batch_id;
        size = size;
      })
      ob

-- AddStorageRequestToOpenBatch
unfoldable pub add_storage_request_to_open_batch :
    Env → String → String → String → ℕ → String → Command
add_storage_request_to_open_batch env op sr data_cid size origin = do
  require (not (str_eq op "")) (message "operation-id is empty")
  require (not (str_eq sr "")) (message "storage-request id is empty")
  require (not (str_eq data_cid "")) (message "data-cid is undefined")
  require (not (nat_eq size 0)) (message "data-size is zero")
  with_tx (add_in_tx env op sr data_cid size origin)

-- MoveBatchToStatus
unfoldable pub move_to_status : String → ℕ → Status → Command
move_to_status id delay s = do
  now ← gets (λ w. w.now)
  with_tx do
    count ← exec_returning (λ d.
        (count_rows (is_batch id) d.batches, Schema.move_batch_to_status id s (now + delay) now d))
    require (nat_eq count 1) (message "unexpected update count")

-- TimeBasedBatchClose
unfoldable pub time_based_batch_close : Env → Command
time_based_batch_close env = do
  now ← gets (λ w. w.now)
  with_tx do
    exec (
        Schema.time_based_batch_closing env.batch_min_waiting
          (env.batch_min_waiting * env.batch_wait_scaling_factor)
          (env.batch_min_waiting * (env.batch_wait_scaling_factor * env.batch_wait_scaling_factor))
          now)

unfoldable pub with_requests : Option BatchRow → Action (Option (BatchRow × List RequestRow))
with_requests none = pure none
with_requests (some b) = do
  srs ← query (λ d. ok (Schema.get_storage_requests_from_batch b.batch_id d))
  pure (some (b, srs))

-- GetNextReadyBatch: the batch and its requests, or none.
unfoldable pub get_next_ready_batch : Action (Option (BatchRow × List RequestRow))
get_next_ready_batch = do
  now ← gets (λ w. w.now)
  with_tx do next ← exec_returning (Schema.get_next_ready_batch stuck now); with_requests next
