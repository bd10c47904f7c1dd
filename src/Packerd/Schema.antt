-- ===== src/Packerd/Schema.antt =====
-- packerd's tables (cmd/packerd/store/migrations) and their statements
-- (cmd/packerd/store/internal/db/batches.sql.go). Times are in nanoseconds; a statement takes
-- CURRENT_TIMESTAMP as an argument.
use broker_core.Base.{
  ℕ, ◌+◌, ◌*◌, String, Bool, true, false, Option, none, some, List, [], ◌∷◌, ◌++◌, ◌&&◌, ◌||◌, ltb,
  leb, str_eq, if◌then◌else◌,
}
use broker_core.Base.Rows.{select, exists_row, update_rows}
use broker_core.Effects.{Result, ok, err, unique_violation}

-- BatchStatus; `opened` is StatusOpen.
pub data Status : Type 0 where
  opened ready executing finished : Status

pub record BatchRow : Type 0 where
  pub batch_id : String
  pub status : Status
  pub total_size : ℕ
  pub origin : String
  pub ready_at : ℕ
  pub created_at : ℕ
  pub updated_at : ℕ

pub record RequestRow : Type 0 where
  pub operation_id : String
  pub storage_request_id : String
  pub data_cid : String
  pub batch_id : String
  pub size : ℕ

pub record Db : Type 0 where
  pub batches : List BatchRow
  pub requests : List RequestRow

abbrev pub is_batch : String → BatchRow → Bool
is_batch i b = str_eq b.batch_id i

abbrev pub is_opened : Status → Bool
is_opened Status.opened = true
is_opened _ = false

-- ORDER BY key LIMIT 1; of rows with the same key, the first.
unfoldable pub least : (BatchRow → ℕ) → List BatchRow → Option BatchRow
least key [] = none
least key (b ∷ bs) = elim (least key bs) [
  | none ↦ some b
  | some c ↦ if leb (key b) (key c) then some b else some c
]

-- An open batch of the origin that has space for the size.
abbrev pub has_space : ℕ → ℕ → String → BatchRow → Bool
has_space max size origin b =
    is_opened b.status && (leb (b.total_size + size) max && str_eq b.origin origin)

unfoldable pub find_open_batch_with_space : ℕ → ℕ → String → Db → Option BatchRow
find_open_batch_with_space max size origin d =
    least (λ b. b.created_at) (select (has_space max size origin) d.batches)

abbrev pub open_batch : String → String → ℕ → BatchRow
open_batch id origin now = record {
  batch_id = id;
  status = Status.opened;
  total_size = 0;
  origin = origin;
  ready_at = now;
  created_at = now;
  updated_at = now;
}

unfoldable pub create_open_batch : String → String → ℕ → Db → Result Db
create_open_batch id origin now d =
    if exists_row (is_batch id) d.batches
    then err unique_violation
    else ok (record d { batches = d.batches ++ open_batch id origin now ∷ [] })

unfoldable pub add_storage_request_in_batch : RequestRow → Db → Result Db
add_storage_request_in_batch r d =
    if exists_row same d.requests
    then err unique_violation
    else ok (record d { requests = d.requests ++ r ∷ [] })
  where
    same : RequestRow → Bool
    same x =
        str_eq x.operation_id r.operation_id && str_eq x.storage_request_id r.storage_request_id

unfoldable pub update_batch_size : String → ℕ → ℕ → Db → Db
update_batch_size id size now d = record d {
  batches =
      update_rows (is_batch id) (λ b. record b { total_size = size; updated_at = now }) d.batches;
}

unfoldable pub move_batch_to_status : String → Status → ℕ → ℕ → Db → Db
move_batch_to_status id s ready_at now d = record d {
  batches =
      update_rows (is_batch id)
        (λ b. record b { status = s; ready_at = ready_at; updated_at = now }) d.batches;
}

abbrev pub mib : ℕ
mib = 1048576

-- The batch has waited long enough for its size; the waiting times are those for 1 GiB, 100 MiB and
-- 1 MiB.
abbrev pub closes : ℕ → ℕ → ℕ → ℕ → BatchRow → Bool
closes w1gib w100mib w1mib now b =
    leb 65 b.total_size
    && (is_opened b.status
        && ((ltb (1024 * mib) b.total_size && ltb (b.created_at + w1gib) now)
            || ((leb (100 * mib) b.total_size
                  && (leb b.total_size (1024 * mib) && ltb (b.created_at + w100mib) now))
                || (leb mib b.total_size
                    && (leb b.total_size (100 * mib) && ltb (b.created_at + w1mib) now)))))

unfoldable pub time_based_batch_closing : ℕ → ℕ → ℕ → ℕ → Db → Db
time_based_batch_closing w1gib w100mib w1mib now d = record d {
  batches =
      update_rows (closes w1gib w100mib w1mib now)
        (λ b. record b { status = Status.ready; ready_at = now }) d.batches;
}

-- The batch is ready, or has been executing for longer than `stuck`.
abbrev pub is_next : ℕ → ℕ → BatchRow → Bool
is_next stuck now b = elim b.status [
  | Status.opened ↦ false
  | Status.ready ↦ true
  | Status.executing ↦ ltb (b.updated_at + stuck) now
  | Status.finished ↦ false
]

abbrev pub lease : ℕ → Option BatchRow → Db → Db
lease now none d = d
lease now (some b) d = record d {
  batches =
      update_rows (is_batch b.batch_id)
        (λ x. record x { status = Status.executing; updated_at = now }) d.batches;
}

-- The row that the statement returns, if any, and what it leaves.
unfoldable pub get_next_ready_batch : ℕ → ℕ → Db → Option BatchRow × Db
get_next_ready_batch stuck now d =
    let next = least (λ b. b.ready_at) (select (is_next stuck now) d.batches) in
    (next, lease now next d)

unfoldable pub get_storage_requests_from_batch : String → Db → List RequestRow
get_storage_requests_from_batch id d = select (λ r. str_eq r.batch_id id) d.requests
