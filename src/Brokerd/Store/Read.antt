-- ===== src/Brokerd/Store/Read.antt =====
-- The store's queries (cmd/brokerd/store/store.go), and sliceDiff.
use broker_core.Base.{ℕ, String, Option, none, some, List, [], ◌∷◌, if◌then◌else◌, contains}
use broker_core.Effects.{
  no_rows, not_found, Result, ok, err, World, pure, gets, lift, attempt, query, ◌>>=◌, ◌>>◌,
}
use broker_core.Brokerd.Types.{Ident, Cid, Batch, StorageRequest, RemoteWallet}
use broker_core.Brokerd.Schema.{DealRow, Db}
use broker_core.Brokerd.Schema.Statements
use broker_core.Brokerd.Schema.Statements.{is_deal_of}
use broker_core.Brokerd.Env.{Env, Action, Message}
use broker_core.Brokerd.Store.Convert.{request_from_db, wallet_from_db, batch_from_db}

-- The database outside the open transaction, which `s.db` reads.
unfoldable pub committed : World Db Message → Db
committed w = elim w.snapshot [ none ↦ w.db | some d ↦ d ]

abbrev pub not_found_if_none {ℓ} : {A : Type ℓ} → Result A → Result A
not_found_if_none (err no_rows) = err not_found
not_found_if_none r = r

-- GetStorageRequest, which reads through `s.db` and not through the transaction.
unfoldable pub get_storage_request : Env → Ident → Action StorageRequest
unfolding committed
get_storage_request env id = do
  attempt
  d ← gets committed
  r ← lift (not_found_if_none (Statements.get_storage_request id d))
  lift (request_from_db env.codec r)

-- GetRemoteWalletConfig
unfoldable pub get_remote_wallet_config : Env → Ident → Action (Option RemoteWallet)
get_remote_wallet_config env id = do
  row ← query (λ d. ok (Statements.get_batch_remote_wallet id d))
  lift (wallet_from_db env.codec row)

-- GetBatch; a missing batch is sql.ErrNoRows.
unfoldable pub get_batch : Env → Ident → Action Batch
get_batch env id = do
  row ← query (Statements.get_batch id)
  tags ← query (λ d. ok (Statements.get_batch_tags id d))
  lift (batch_from_db env.codec row tags)

-- GetBatchManifest
unfoldable pub get_batch_manifest : Ident → Action (List ℕ)
get_batch_manifest id = do
  row ← query (λ d. not_found_if_none (Statements.get_batch_manifest id d))
  pure row.manifest

-- GetDeals
unfoldable pub get_deals : Ident → Action (List DealRow)
get_deals id = query (λ d. ok (Statements.get_deals id d))

-- GetStorageRequestIDs
unfoldable pub get_storage_request_ids : Ident → Action (List Ident)
get_storage_request_ids id = query (λ d. ok (Statements.get_storage_request_ids id d))

-- GetExcludedStorageProviders
unfoldable pub get_excluded_storage_providers : Env → Cid → String → Action (List String)
get_excluded_storage_providers env piece_cid origin =
    query (λ d.
      ok (Statements.get_excluded_storage_providers (env.codec.cid_string piece_cid) origin d))

-- sliceDiff
unfoldable pub slice_diff : List Ident → List Ident → List Ident
slice_diff full [] = []
slice_diff full (s ∷ ss) =
    let rest = slice_diff full ss in if contains full s then rest else s ∷ rest
