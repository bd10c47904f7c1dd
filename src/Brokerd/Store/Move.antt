-- ===== src/Brokerd/Store/Move.antt =====
-- The moves of a batch: BatchToAuctioning, BatchError and BatchSuccess (cmd/brokerd/store/store.go).
use broker_core.Base.{ℕ, String, Bool, false, List, [], ◌∷◌, not, if◌then◌else◌}
use broker_core.Effects.{
  message, ok, pure, raise, gets, done, require, exec, query, insert, new_id, with_tx, ◌>>=◌, ◌>>◌,
}
use broker_core.Brokerd.Types.{Ident, Cid, BatchStatus, RequestStatus}
use broker_core.Brokerd.Schema.{BatchRow, RequestRow, UnpinType}
use broker_core.Brokerd.Schema.Statements
use broker_core.Brokerd.Schema.Statements.{is_deal_of}
use broker_core.Brokerd.Env.{Env, Action, Command, filled}

-- BatchToAuctioning
unfoldable pub batch_to_auctioning : Env → Ident → Cid → ℕ → Command
batch_to_auctioning env id piece_cid piece_size = with_tx do
  exec (
      Statements.update_batch id BatchStatus.auctioning (env.codec.cid_string piece_cid) piece_size)
  exec (Statements.update_storage_requests_status id RequestStatus.auctioning)

-- CreateUnpinJob; the new job is ready at once, for CURRENT_TIMESTAMP is its default.
unfoldable pub create_unpin_job : Ident → String → UnpinType → Command
create_unpin_job id cid kind = do
  now ← gets (λ w. w.now)
  insert (
      Statements.create_unpin_job (record {
        id = id;
        executing = false;
        cid = cid;
        kind = kind;
        ready_at = now;
        updated_at = now;
      }))

-- The statements of BatchError, once the status allows it.
unfoldable pub move_to_error : Env → BatchRow → Ident → String → Bool → Action (List Ident)
move_to_error env ba id cause rebatch = do
  exec (Statements.update_batch_status_and_error id BatchStatus.error cause)
  exec (
      Statements.update_storage_requests_status id
        (if rebatch then RequestStatus.batching else RequestStatus.error))
  if rebatch then exec (Statements.rebatch_storage_requests id cause) else done
  -- the code draws an identifier for the job before it knows whether it needs one
  unpin_id ← new_id env.id
  if ba.disallow_rebatching then done else create_unpin_job unpin_id ba.payload_cid UnpinType.batch
  query (λ d. ok (Statements.get_storage_request_ids id d))

-- BatchError by the status that the batch has.
unfoldable pub batch_error_by :
    Env → BatchRow → Ident → String → Bool → BatchStatus → Action (List Ident)
batch_error_by env ba id cause rebatch BatchStatus.auctioning = do
  require (not (filled ba.error_cause)) (message "error cause should be empty")
  move_to_error env ba id cause rebatch
batch_error_by env ba id cause rebatch BatchStatus.deal_making = do
  require (not (filled ba.error_cause)) (message "error cause should be empty")
  move_to_error env ba id cause rebatch
batch_error_by env ba id cause rebatch BatchStatus.error =
    query (λ d. ok (Statements.get_storage_request_ids id d))
batch_error_by env ba id cause rebatch BatchStatus.success = pure []
batch_error_by env ba id cause rebatch BatchStatus.unknown = raise (message "wrong batch status")
batch_error_by env ba id cause rebatch BatchStatus.preparing = raise (message "wrong batch status")

-- BatchError: the ids of the batch's requests.
unfoldable pub batch_error : Env → Ident → String → Bool → Action (List Ident)
batch_error env id cause rebatch =
    with_tx
      do ba ← query (Statements.get_batch id); batch_error_by env ba id cause rebatch ba.status

-- One job for each request's data.
unfoldable pub unpin_data : Env → List RequestRow → Command
unpin_data env [] = done
unpin_data env (r ∷ rs) = do
  unpin_id ← new_id env.id
  create_unpin_job unpin_id r.data_cid UnpinType.data_cid
  unpin_data env rs

-- The unpin jobs of BatchSuccess.
unfoldable pub unpin_all : Env → BatchRow → List RequestRow → Command
unpin_all env ba brs = if ba.disallow_rebatching then done else do
  unpin_data env brs
  unpin_id ← new_id env.id
  create_unpin_job unpin_id ba.payload_cid UnpinType.batch

-- BatchSuccess
unfoldable pub batch_success : Env → Ident → Command
batch_success env id = with_tx do
  ba ← query (Statements.get_batch id)
  exec (Statements.update_batch_status id BatchStatus.success)
  exec (Statements.update_storage_requests_status id RequestStatus.success)
  brs ← query (λ d. ok (Statements.get_storage_requests id d))
  unpin_all env ba brs
