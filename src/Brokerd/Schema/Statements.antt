-- ===== src/Brokerd/Schema/Statements.antt =====
-- The statements of cmd/brokerd/store/internal/db, one function for each generated method.
use broker_core.Base.{
  ℕ, ◌+◌, String, Bool, false, Option, none, some, List, [], ◌∷◌, ◌++◌, map, ◌&&◌, str_eq,
  if◌then◌else◌, contains,
}
use broker_core.Base.Int.{ℤ}
use broker_core.Base.Rows.{select, select_one, exists_row, update_rows}
use broker_core.Effects.{Result, ok, err, no_rows, unique_violation}
use broker_core.Brokerd.Types.{Ident, BatchStatus, RequestStatus}
use broker_core.Brokerd.Schema.{
  BatchRow, RequestRow, DealRow, UnpinJobRow, TagRow, ManifestRow, WalletRow, Db,
}

-- Tests of rows.
abbrev pub has_id : Ident → BatchRow → Bool
has_id i r = str_eq r.id i

abbrev pub in_batch_by : Option Ident → Ident → Bool
in_batch_by none i = false
in_batch_by (some j) i = str_eq j i

-- NULL is equal to nothing.
abbrev pub in_batch : Ident → RequestRow → Bool
in_batch i r = in_batch_by r.batch_id i

abbrev found {ℓ} : {A : Type ℓ} → Option A → Result A
found none = err no_rows
found (some a) = ok a

-- batch.sql
unfoldable pub create_batch : BatchRow → Db → Result Db
create_batch r d =
    if exists_row (has_id r.id) d.batches
    then err unique_violation
    else ok (record d { batches = d.batches ++ r ∷ [] })

unfoldable pub get_batch : Ident → Db → Result BatchRow
get_batch i d = found (select_one (has_id i) d.batches)

unfoldable pub update_batch : Ident → BatchStatus → String → ℕ → Db → Db
update_batch i s piece_cid piece_size d = record d {
  batches = update_rows (has_id i) set d.batches;
}
  where
    set : BatchRow → BatchRow
    set r = record r { status = s; piece_cid = piece_cid; piece_size = piece_size }

unfoldable pub update_batch_status : Ident → BatchStatus → Db → Db
update_batch_status i s d = record d {
  batches = update_rows (has_id i) (λ r. record r { status = s }) d.batches;
}

unfoldable pub update_batch_status_and_error : Ident → BatchStatus → String → Db → Db
update_batch_status_and_error i s e d = record d {
  batches = update_rows (has_id i) (λ r. record r { status = s; error_cause = e }) d.batches;
}

unfoldable pub create_batch_tag : TagRow → Db → Result Db
create_batch_tag t d =
    if exists_row (λ r. str_eq r.batch_id t.batch_id && str_eq r.key t.key) d.tags
    then err unique_violation
    else ok (record d { tags = d.tags ++ t ∷ [] })

unfoldable pub get_batch_tags : Ident → Db → List TagRow
get_batch_tags i d = select (λ r. str_eq r.batch_id i) d.tags

unfoldable pub create_batch_manifest : ManifestRow → Db → Result Db
create_batch_manifest m d =
    if exists_row (λ r. str_eq r.batch_id m.batch_id) d.manifests
    then err unique_violation
    else ok (record d { manifests = d.manifests ++ m ∷ [] })

unfoldable pub get_batch_manifest : Ident → Db → Result ManifestRow
get_batch_manifest i d = found (select_one (λ r. str_eq r.batch_id i) d.manifests)

unfoldable pub create_batch_remote_wallet : WalletRow → Db → Result Db
create_batch_remote_wallet m d =
    if exists_row (λ r. str_eq r.batch_id m.batch_id) d.wallets
    then err unique_violation
    else ok (record d { wallets = d.wallets ++ m ∷ [] })

-- none for sql.ErrNoRows
unfoldable pub get_batch_remote_wallet : Ident → Db → Option WalletRow
get_batch_remote_wallet i d = select_one (λ r. str_eq r.batch_id i) d.wallets

-- deal.sql
unfoldable pub create_deal : DealRow → Db → Db
create_deal r d = record d { deals = d.deals ++ r ∷ [] }

abbrev pub is_deal_of : Ident → String → DealRow → Bool
is_deal_of i sp r = str_eq r.batch_id i && str_eq r.storage_provider_id sp

-- `count_rows` of the same test is the number of rows that the statement reports.
unfoldable pub update_deals : Ident → String → ℤ → ℕ → String → Db → Db
update_deals i sp deal_id expiration cause d = record d {
  deals = update_rows (is_deal_of i sp) set d.deals;
}
  where
    set : DealRow → DealRow
    set r = record r { deal_id = deal_id; deal_expiration = expiration; error_cause = cause }

unfoldable pub get_deals : Ident → Db → List DealRow
get_deals i d = select (λ r. str_eq r.batch_id i) d.deals

-- SELECT DISTINCT
unfoldable pub distinct : List String → List String
distinct [] = []
distinct (s ∷ ss) = let rest = distinct ss in if contains rest s then rest else s ∷ rest

-- The batches of the piece and origin, joined with the deals.
unfoldable pub get_excluded_storage_providers : String → String → Db → List String
get_excluded_storage_providers piece_cid origin d =
    distinct (map (λ r. r.storage_provider_id) (select joins d.deals))
  where
    joins : DealRow → Bool
    joins r =
        exists_row
          (λ b. str_eq b.id r.batch_id && (str_eq b.piece_cid piece_cid && str_eq b.origin origin))
          d.batches

-- operation.sql
unfoldable pub create_operation : Ident → Db → Result Db
create_operation i d =
    if contains d.operations i
    then err unique_violation
    else ok (record d { operations = d.operations ++ i ∷ [] })

-- storage_request.sql
unfoldable pub create_storage_request : RequestRow → Db → Result Db
create_storage_request r d =
    if exists_row (λ x. str_eq x.id r.id) d.requests
    then err unique_violation
    else ok (record d { requests = d.requests ++ r ∷ [] })

unfoldable pub get_storage_request : Ident → Db → Result RequestRow
get_storage_request i d = found (select_one (λ r. str_eq r.id i) d.requests)

unfoldable pub get_storage_requests : Ident → Db → List RequestRow
get_storage_requests i d = select (in_batch i) d.requests

unfoldable pub get_storage_request_ids : Ident → Db → List Ident
get_storage_request_ids i d = map (λ r. r.id) (get_storage_requests i d)

-- The ids that BatchUpdateStorageRequests returns: those of the rows that it changes.
unfoldable pub updated_ids : List Ident → Db → List Ident
updated_ids ids d = map (λ r. r.id) (select (λ r. contains ids r.id) d.requests)

unfoldable pub batch_update_storage_requests : List Ident → RequestStatus → Ident → Db → Db
batch_update_storage_requests ids s i d = record d {
  requests =
      update_rows (λ r. contains ids r.id) (λ r. record r { status = s; batch_id = some i })
        d.requests;
}

unfoldable pub update_storage_requests_status : Ident → RequestStatus → Db → Db
update_storage_requests_status i s d = record d {
  requests = update_rows (in_batch i) (λ r. record r { status = s }) d.requests;
}

unfoldable pub rebatch_storage_requests : Ident → String → Db → Db
rebatch_storage_requests i e d = record d { requests = update_rows (in_batch i) set d.requests }
  where
    set : RequestRow → RequestRow
    set r = record r { rebatch_count = r.rebatch_count + 1; error_cause = e }

-- unpin_job.sql
unfoldable pub create_unpin_job : UnpinJobRow → Db → Result Db
create_unpin_job j d =
    if exists_row (λ r. str_eq r.id j.id) d.unpin_jobs
    then err unique_violation
    else ok (record d { unpin_jobs = d.unpin_jobs ++ j ∷ [] })
