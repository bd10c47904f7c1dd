-- ===== src/Brokerd/Unpinner.antt =====
-- brokerd's daemon that unpins data: daemonUnpinner and unpinCid of cmd/brokerd/broker/unpinner.go, with
-- cmd/brokerd/store/store_unpinner.go and its statements. The messages of its world are the cids that
-- the IPFS node has unpinned.
pub mod Jobs
pub mod Steps
mod Examples
use broker_core.Base.{
  ℕ, ◌+◌, ◌*◌, ◌^◌, String, Bool, true, false, Option, none, some, List, ◌&&◌, ◌||◌, not, ltb,
  str_eq, if◌then◌else◌,
}
use broker_core.Base.Rows.{select, update_rows, delete_rows, first_by}
use broker_core.Effects.{
  message, unavailable, Result, ok, err, panicked, Exec, Done, pure, raise, gets, done, require,
  exec, exec_returning, publish, logged, succeeds, caught, ◌>>=◌, ◌>>◌,
}
use broker_core.Brokerd.Types.{Ident}
use broker_core.Brokerd.Schema.{Db, UnpinJobRow}

abbrev pub Action : Type 0 → Type 0
Action A = Exec Db String A

abbrev pub Command : Type 0
Command = Done Db String

-- `skips` tells for which cids the node answers with the error that unpinCid takes for data that is
-- unpinned already.
pub record Env : Type 0 where
  pub retry_delay : ℕ
  pub is_cid : String → Bool
  pub skips : String → Bool

-- stuckSeconds, in nanoseconds
abbrev pub stuck : ℕ
stuck = 300 * 10 ^ 9

abbrev pub is_job : Ident → UnpinJobRow → Bool
is_job i j = str_eq j.id i

abbrev pub is_next : ℕ → UnpinJobRow → Bool
is_next now j =
    (ltb j.ready_at now && not j.executing) || (j.executing && ltb (j.updated_at + stuck) now)

abbrev pub lease : ℕ → Option UnpinJobRow → Db → Db
lease now none d = d
lease now (some j) d = record d {
  unpin_jobs =
      update_rows (is_job j.id) (λ x. record x { executing = true; updated_at = now }) d.unpin_jobs;
}

unfoldable pub next_unpin_job : ℕ → Db → Option UnpinJobRow × Db
next_unpin_job now d =
    let next = first_by (λ j. j.ready_at) (select (is_next now) d.unpin_jobs) in
    (next, lease now next d)

unfoldable pub delete_executing_unpin_job : Ident → Db → Db
delete_executing_unpin_job i d = record d {
  unpin_jobs = delete_rows (λ j. is_job i j && j.executing) d.unpin_jobs;
}

unfoldable pub unpin_job_to_pending : Ident → ℕ → ℕ → Db → Db
unpin_job_to_pending i ready_at now d = record d {
  unpin_jobs =
      update_rows (λ j. is_job i j && j.executing)
        (λ j. record j { executing = false; ready_at = ready_at; updated_at = now }) d.unpin_jobs;
}

-- UnpinJobGetNext
unfoldable pub unpin_job_get_next : Action (Option UnpinJobRow)
unpin_job_get_next = do now ← gets (λ w. w.now); exec_returning (next_unpin_job now)

-- UnpinJobMoveToPending
unfoldable pub unpin_job_move_to_pending : Ident → ℕ → Command
unpin_job_move_to_pending i delay = do
  now ← gets (λ w. w.now)
  exec (unpin_job_to_pending i (now + delay) now)

unfoldable pub unless_skipped : Env → String → Bool → Command
unless_skipped env c true = done
unless_skipped env c false = if env.skips c then done else raise unavailable

-- unpinCid
unfoldable pub unpin_cid : Env → UnpinJobRow → Command
unpin_cid env j = do
  require (env.is_cid j.cid) (message "parsing cid")
  removed ← succeeds (publish j.cid)
  unless_skipped env j.cid removed

unfoldable pub retry_later : Env → UnpinJobRow → Action Bool
retry_later env j = do logged (unpin_job_move_to_pending j.id env.retry_delay); pure true

-- What the loop does after unpinCid.
unfoldable pub finish : Env → UnpinJobRow → Bool → Action Bool
finish env j false = retry_later env j
finish env j true = do
  deleted ← succeeds (exec (delete_executing_unpin_job j.id))
  if deleted then pure true else retry_later env j

unfoldable pub unpin_job : Env → Result (Option UnpinJobRow) → Action Bool
unpin_job env (ok (some j)) = do unpinned ← succeeds (unpin_cid env j); finish env j unpinned
unpin_job env (ok none) = pure false
unpin_job env (err e) = pure false
unpin_job env panicked = pure false

-- A turn of the inner loop of daemonUnpinner, and whether the loop goes on.
unfoldable pub unpin_next : Env → Action Bool
unpin_next env = do next ← caught unpin_job_get_next; unpin_job env next
