-- ===== src/Piecerd/Schema.antt =====
-- piecerd's table (cmd/piecerd/store/migrations) and its statements
-- (cmd/piecerd/store/internal/db/unprepared_batches.sql.go). Times are in nanoseconds; a statement takes
-- CURRENT_TIMESTAMP as an argument.
use broker_core.Base.{
  ℕ, ◌+◌, String, Bool, false, Option, none, some, List, [], ◌∷◌, ◌++◌, ltb, str_eq, if◌then◌else◌,
}
use broker_core.Base.Rows.{select, exists_row, update_rows, count_rows, first_by}
use broker_core.Effects.{Result, ok, err, unique_violation}

-- UnpreparedBatchStatus; `finished` is StatusDone.
pub data Status : Type 0 where
  pending executing finished : Status

pub record Row : Type 0 where
  pub batch_id : String
  pub status : Status
  pub data_cid : String
  pub ready_at : ℕ
  pub created_at : ℕ
  pub updated_at : ℕ

pub record Db : Type 0 where
  pub batches : List Row

abbrev pub is_batch : String → Row → Bool
is_batch i r = str_eq r.batch_id i

abbrev pub pending_row : String → String → ℕ → Row
pending_row i c now = record {
  batch_id = i;
  status = Status.pending;
  data_cid = c;
  ready_at = now;
  created_at = now;
  updated_at = now;
}

unfoldable pub create_unprepared_batch : String → String → ℕ → Db → Result Db
create_unprepared_batch i c now d =
    if exists_row (is_batch i) d.batches
    then err unique_violation
    else ok (record { batches = d.batches ++ pending_row i c now ∷ [] })

-- Pending and ready, or executing for longer than `stuck`.
abbrev pub is_next : ℕ → ℕ → Row → Bool
is_next stuck now r = elim r.status [
  | Status.pending ↦ ltb r.ready_at now
  | Status.executing ↦ ltb (r.updated_at + stuck) now
  | Status.finished ↦ false
]

abbrev pub lease : ℕ → Option Row → Db → Db
lease now none d = d
lease now (some b) d = record {
  batches =
      update_rows (is_batch b.batch_id)
        (λ r. record r { status = Status.executing; updated_at = now }) d.batches;
}

-- The row that the statement returns, if any, and what it leaves.
unfoldable pub get_next_pending : ℕ → ℕ → Db → Option Row × Db
get_next_pending stuck now d =
    let next = first_by (λ r. r.ready_at) (select (is_next stuck now) d.batches) in
    (next, lease now next d)

-- With the number of rows that are updated.
unfoldable pub move_to_status : String → Status → ℕ → ℕ → Db → ℕ × Db
move_to_status i s ready_at now d = (
  count_rows (is_batch i) d.batches,
  record {
    batches =
        update_rows (is_batch i)
          (λ r. record r { status = s; ready_at = ready_at; updated_at = now }) d.batches;
  },
)
