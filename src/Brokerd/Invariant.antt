-- ===== src/Brokerd/Invariant.antt =====
-- Invariants of brokerd's database that the broker's operations on one batch keep. An invariant
-- answers for the changes of the tables of batches, requests and operations; the walk through the
-- code is made once.
pub mod Create
pub mod Move
pub mod Read
pub mod Handlers
pub mod Events
use broker_core.Base.{ℕ, String, ◌≡◌, Bool, true, false, none, List, [], ◌∷◌, ◌++◌, contains}
use broker_core.Base.Rows.{exists_row}
use broker_core.Effects.{Result, ok}
use broker_core.Brokerd.Types.{Ident, BatchStatus, RequestStatus}
use broker_core.Brokerd.Schema.{BatchRow, RequestRow, Db}
use broker_core.Brokerd.Schema.Statements
use broker_core.Brokerd.Schema.Statements.{has_id}
use broker_core.Brokerd.Mirror.{mirrors}

-- `I` is kept by what the store does to the batch `id` and its requests.
pub record KeptAt (id : Ident) (I : Db → Type 0) : Type 0 where
  -- it says nothing of the other tables
  pub side :
      (d d' : Db)
      → d'.batches ≡ d.batches
      → d'.requests ≡ d.requests
      → d'.operations ≡ d.operations
      → I d
      → I d'
  pub auctioning :
      (p : String) (n : ℕ) (d : Db)
      → I d
      → I (
          Statements.update_storage_requests_status id RequestStatus.auctioning
            (Statements.update_batch id BatchStatus.auctioning p n d))
  pub moving :
      (st : BatchStatus) (s : RequestStatus) (d : Db)
      → mirrors st s ≡ true
      → I d
      → I (Statements.update_storage_requests_status id s (Statements.update_batch_status id st d))
  pub erroring :
      (e : String) (s : RequestStatus) (d : Db)
      → mirrors BatchStatus.error s ≡ true
      → I d
      → I (
          Statements.update_storage_requests_status id s
            (Statements.update_batch_status_and_error id BatchStatus.error e d))
  pub rebatching : (e : String) (d : Db) → I d → I (Statements.rebatch_storage_requests id e d)
  pub recording :
      (op : Ident) (d : Db) → I d → I (record d { operations = d.operations ++ op ∷ [] })
  pub requesting :
      (r : RequestRow) (d : Db)
      → r.batch_id ≡ none
      → I d
      → I (record d { requests = d.requests ++ r ∷ [] })
  pub batching :
      (row : BatchRow) (ids : List Ident) (s : RequestStatus) (d : Db)
      → row.id ≡ id
      → mirrors row.status s ≡ true
      → exists_row (has_id id) d.batches ≡ false
      → I d
      → I (
          Statements.batch_update_storage_requests ids s id
            (record d { batches = d.batches ++ row ∷ [] }))
