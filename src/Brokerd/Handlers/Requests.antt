-- ===== src/Brokerd/Handlers/Requests.antt =====
-- What clients and the packer ask of the broker: Create, CreatePrepared, GetStorageRequestInfo,
-- CreateNewBatch and GetBatch.
use broker_core.Base.{
  ℕ, ◌+◌, ◌/◌, String, Bool, true, false, Option, none, some, List, [], ◌∷◌, not, nat_eq,
  if◌then◌else◌,
}
use broker_core.Base.Int.{ℤ, pos, negsuc}
use broker_core.Effects.{
  message, Result, ok, err, pure, gets, lift, done, require, new_id, deferred_tx, ◌>>=◌, ◌>>◌,
  invalid_cid, empty_group,
}
use broker_core.Brokerd.Types.{
  Ident, Cid, Batch, BatchStatus, RequestStatus, StorageRequest, StorageRequestInfo,
  StorageRequestDeal, PreparedCar, BatchMetadata, RemoteWallet, is_defined,
}
use broker_core.Brokerd.Schema.{DealRow}
use broker_core.Brokerd.Env.{Env, Action, Command, publish_ready_to_batch, filled, is_empty}
use broker_core.Brokerd.Epoch.{time_to_fil_epoch}
use broker_core.Brokerd.Store.Convert.{second}
use broker_core.Brokerd.Store.Read
use broker_core.Brokerd.Store.Create
use broker_core.Brokerd.Handlers.Auction.{epoch_after, start_auction}

-- Create
unfoldable pub create : Env → Cid → String → Action StorageRequest
create env data_cid origin = do
  require (is_defined data_cid) invalid_cid
  id ← new_id env.id
  let br : StorageRequest = record {
    id = id;
    data_cid = data_cid;
    status = RequestStatus.batching;
    origin = origin;
    batch_id = "";
  }
  Create.create_storage_request env br
  publish_ready_to_batch
      (record { storage_request_id = id; data_cid = data_cid; origin = origin } ∷ [])
  pure br

-- A zero replication factor stands for the default.
abbrev pub or_default : ℕ → ℕ → ℕ
or_default n d = if nat_eq n 0 then d else n

-- The offset of the request, in nanoseconds, or the default.
abbrev pub start_offset : Env → ℤ → Result ℕ
start_offset env (pos n) = ok (or_default n env.conf.default_proposal_start_offset)
start_offset env (negsuc n) = err (message "proposals start offset is negative")

-- The deadline of the request, or the default one.
abbrev pub deadline_of : Env → ℕ → Option ℤ → ℤ
deadline_of env now none = pos ((now + env.conf.default_batch_deadline) / second)
deadline_of env now (some t) = t

-- The batch of a prepared request.
unfoldable pub prepared_batch : Env → Cid → PreparedCar → BatchMetadata → ℕ → ℕ → Ident → Batch
prepared_batch env payload_cid pc meta offset deadline id = record {
  id = id;
  status = BatchStatus.auctioning;
  rep_factor = or_default pc.rep_factor env.conf.deal_replication;
  deal_duration = env.conf.deal_duration;
  sources = pc.sources;
  disallow_rebatching = true;
  fil_epoch_deadline = deadline;
  proposal_start_offset = offset;
  error_cause = "";
  origin = meta.origin;
  tags = meta.tags;
  providers = meta.providers;
  payload_cid = payload_cid;
  payload_size = none;
  piece_cid = pc.piece_cid;
  piece_size = pc.piece_size;
}

-- The transaction of CreatePrepared.
unfoldable pub save_prepared :
    Env → StorageRequest → Batch → Option RemoteWallet → Action StorageRequest
save_prepared env sr ba wallet = do
  Create.create_storage_request env sr
  Create.create_batch env ba (sr.id ∷ []) none wallet
  epoch ← epoch_after ba.proposal_start_offset
  -- a direct-to-provider auction ignores the history
  start_auction env ba wallet ba.rep_factor ba.piece_size epoch (not (is_empty ba.providers))
  pure (record sr { batch_id = ba.id })

-- CreatePrepared
unfoldable pub create_prepared :
    Env → Cid → PreparedCar → BatchMetadata → Option RemoteWallet → Action StorageRequest
create_prepared env payload_cid pc meta wallet = do
  require (is_defined payload_cid) invalid_cid
  require (filled meta.origin) (message "origin is empty")
  sr_id ← new_id env.id
  offset ← lift (start_offset env pc.proposal_start_offset)
  now ← gets (λ w. w.now)
  deadline ← lift (time_to_fil_epoch (deadline_of env now pc.deadline))
  batch_id ← new_id env.id
  deferred_tx (
      save_prepared env
        (record {
          id = sr_id;
          data_cid = payload_cid;
          status = RequestStatus.auctioning;
          origin = meta.origin;
          batch_id = "";
        })
        (prepared_batch env payload_cid pc meta offset deadline batch_id) wallet)

abbrev pub is_zero : ℤ → Bool
is_zero (pos n) = nat_eq n 0
is_zero (negsuc n) = false

-- The deals that are on chain.
unfoldable pub known_deals : List DealRow → List StorageRequestDeal
known_deals [] = []
known_deals (d ∷ ds) =
    let rest = known_deals ds in
    let deal : StorageRequestDeal = record {
      storage_provider_id = d.storage_provider_id;
      deal_id = d.deal_id;
      expiration = d.deal_expiration;
    } in
    if is_zero d.deal_id then rest else deal ∷ rest

-- GetStorageRequestInfo
unfoldable pub get_storage_request_info : Env → Ident → Action StorageRequestInfo
get_storage_request_info env id = do
  sr ← Read.get_storage_request env id
  deals ← (if filled sr.batch_id then Read.get_deals sr.batch_id else pure [])
  pure (record { storage_request = sr; deals = known_deals deals })

-- The batch that the packer reports.
unfoldable pub packed_batch : Env → Ident → Cid → ℕ → String → String → Batch
packed_batch env id batch_cid size origin car_url = record {
  id = id;
  status = BatchStatus.preparing;
  rep_factor = env.conf.deal_replication;
  deal_duration = env.conf.deal_duration;
  sources = record { car_url = some car_url; car_ipfs = none };
  disallow_rebatching = false;
  fil_epoch_deadline = 0;
  proposal_start_offset = env.conf.default_proposal_start_offset;
  error_cause = "";
  origin = origin;
  tags = [];
  providers = [];
  payload_cid = batch_cid;
  payload_size = some size;
  piece_cid = "";
  piece_size = 0;
}

unfoldable pub check_ids : List Ident → Command
check_ids [] = done
check_ids (i ∷ is) = do
  require (filled i) (message "storage requests id can't be empty")
  check_ids is

-- CreateNewBatch
unfoldable pub create_new_batch :
    Env → Ident → Cid → ℕ → List Ident → String → Option (List ℕ) → String → Action Ident
unfolding check_ids
create_new_batch env id batch_cid size ids origin manifest car_url = do
  require (is_defined batch_cid) invalid_cid
  require (not (is_empty ids)) empty_group
  require (not (nat_eq size 0)) (message "batch size can't be empty")
  check_ids ids
  Create.create_batch env (packed_batch env id batch_cid size origin car_url) ids manifest none
  pure id

-- GetBatch
unfoldable pub get_batch : Env → Ident → Action Batch
get_batch env id = Read.get_batch env id
