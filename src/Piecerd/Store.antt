-- ===== src/Piecerd/Store.antt =====
-- The operations of cmd/piecerd/store/store.go. A cid is its text.
use broker_core.Base.{ℕ, ◌+◌, ◌*◌, ◌^◌, String, Bool, Option, none, some, not, nat_eq, str_eq}
use broker_core.Effects.{
  message, unique_violation, batch_exists, Result, err, Exec, Done, pure, gets, require,
  exec_returning, insert, ◌>>=◌, ◌>>◌,
}
use broker_core.Brokerd.Types.{Cid, is_defined}
use broker_core.Piecerd.Schema
use broker_core.Piecerd.Schema.{Db, Row, Status}

-- The message NewBatchPrepared.
pub record Message : Type 0 where
  pub batch_id : String
  pub piece_cid : Cid
  pub piece_size : ℕ

abbrev pub Action : Type 0 → Type 0
Action A = Exec Db Message A

abbrev pub Command : Type 0
Command = Done Db Message

-- stuckSeconds, in nanoseconds
abbrev pub stuck : ℕ
stuck = 7200 * 10 ^ 9

abbrev pub exists_if_taken : Result Db → Result Db
exists_if_taken (err unique_violation) = err batch_exists
exists_if_taken r = r

-- CreateUnpreparedBatch
unfoldable pub create_unprepared_batch : String → Cid → Command
create_unprepared_batch i c = do
  require (not (str_eq i "")) (message "batch-id is empty")
  require (is_defined c) (message "data-cid is undefined")
  now ← gets (λ w. w.now)
  insert (λ d. exists_if_taken (Schema.create_unprepared_batch i c now d))

-- The cid of the row is decoded; `is_cid` is cid.Decode without an error.
unfoldable pub decoded : (String → Bool) → Option Row → Action (Option Row)
decoded is_cid none = pure none
decoded is_cid (some r) = do require (is_cid r.data_cid) (message "parsing cid"); pure (some r)

-- GetNextPending: the batch, or none.
unfoldable pub get_next_pending : (String → Bool) → Action (Option Row)
get_next_pending is_cid = do
  now ← gets (λ w. w.now)
  next ← exec_returning (Schema.get_next_pending stuck now)
  decoded is_cid next

-- MoveToStatus
unfoldable pub move_to_status : String → ℕ → Status → Command
move_to_status i delay s = do
  now ← gets (λ w. w.now)
  count ← exec_returning (Schema.move_to_status i s (now + delay) now)
  require (nat_eq count 1) (message "unexpected update count")
