-- ===== src/Brokerd/Handlers/Auction.antt =====
-- Starting an auction, and the ends of a batch: startAuction, batchSuccess, batchError and
-- errorBatchAndRebatch.
use broker_core.Base.{
  ℕ, ◌+◌, ◌/◌, String, Bool, true, false, Option, none, some, List, [], ◌∷◌, ◌&&◌, not, nat_eq,
  if◌then◌else◌, contains, length,
}
use broker_core.Base.Int.{pos}
use broker_core.Effects.{pure, gets, lift, new_id, publish, ◌>>=◌, ◌>>◌}
use broker_core.Brokerd.Types.{Ident, Batch, RemoteWallet, Address}
use broker_core.Brokerd.Codec.{Codec, stringify_addr, stringify_addrs}
use broker_core.Brokerd.Env.{
  Env, Action, Command, ReadyToAuction, ReadyToBatchData, ready_to_auction, publish_ready_to_batch,
  is_empty,
}
use broker_core.Brokerd.Epoch.{time_to_fil_epoch}
use broker_core.Brokerd.Store.Convert.{second}
use broker_core.Brokerd.Store.Read
use broker_core.Brokerd.Store.Move

-- timeToFilEpoch(time.Now().Add(offset))
unfoldable pub epoch_after : ℕ → Action ℕ
epoch_after offset = do
  now ← gets (λ w. w.now)
  lift (time_to_fil_epoch (pos ((now + offset) / second)))

-- batchSuccess
unfoldable pub batch_success : Env → Batch → Command
batch_success env ba = Move.batch_success env ba.id

-- batchError
unfoldable pub batch_error : Env → Batch → String → Bool → Action (List Ident)
batch_error env ba cause rebatch = Move.batch_error env ba.id cause rebatch

-- The wallet of the auction's client.
abbrev pub client_wallet : Env → Option RemoteWallet → Address
client_wallet env none = env.conf.default_wallet_addr
client_wallet env (some wallet) = wallet.wallet_addr

-- The targeted providers that are excluded.
unfoldable pub excluded_targets : Codec → List Address → List String → List String
excluded_targets c [] excluded = []
excluded_targets c (p ∷ ps) excluded =
    let rest = excluded_targets c ps excluded in
    if contains excluded (stringify_addr c p) then stringify_addr c p ∷ rest else rest

-- No targeted provider is left that could win.
abbrev pub none_left : Env → Batch → List String → Bool
none_left env ba excluded =
    not (is_empty ba.providers)
    && nat_eq (length (excluded_targets env.codec ba.providers excluded)) (length ba.providers)

unfoldable pub excluded_providers : Env → Batch → Bool → Action (List String)
excluded_providers env ba ignore =
    if ignore then pure [] else Read.get_excluded_storage_providers env ba.piece_cid ba.origin

unfoldable pub auction_message :
    Env → Batch → Option RemoteWallet → ℕ → ℕ → ℕ → List String → Ident → ReadyToAuction
auction_message env ba wallet rep_factor piece_size deadline excluded id = record {
  id = id;
  batch_id = ba.id;
  payload_cid = ba.payload_cid;
  deal_size = piece_size;
  deal_duration = ba.deal_duration;
  deal_replication = rep_factor;
  deal_verified = env.conf.verified_deals;
  excluded_storage_providers = excluded;
  fil_epoch_deadline = deadline;
  sources = ba.sources;
  client_address = stringify_addr env.codec (client_wallet env wallet);
  providers = stringify_addrs env.codec ba.providers;
}

-- startAuction: the id of the auction, which is empty where the batch was failed instead.
unfoldable pub start_auction : Env → Batch → Option RemoteWallet → ℕ → ℕ → ℕ → Bool → Action Ident
start_auction env ba wallet rep_factor piece_size deadline ignore = do
  auction_id ← new_id env.id
  excluded ← excluded_providers env ba ignore
  if none_left env ba excluded
      then (do
        batch_error env ba "no available miners can be selected for auctioning" false
        pure "")
      else (do
        publish (
            ready_to_auction
              (auction_message env ba wallet rep_factor piece_size deadline excluded auction_id))
        pure auction_id)

-- The loop of errorBatchAndRebatch: what the batch's requests are batched again with.
unfoldable pub ready_data : Env → List Ident → Action (List ReadyToBatchData)
ready_data env [] = pure []
ready_data env (id ∷ ids) = do
  br ← Read.get_storage_request env id
  rest ← ready_data env ids
  pure (record { storage_request_id = br.id; data_cid = br.data_cid; origin = br.origin } ∷ rest)

-- errorBatchAndRebatch
unfoldable pub error_batch_and_rebatch : Env → Batch → String → Command
error_batch_and_rebatch env ba cause = do
  brs ← batch_error env ba cause true
  items ← ready_data env brs
  publish_ready_to_batch items
