-- ===== src/Piecerd/Piecer.antt =====
-- The piecer (cmd/piecerd/piecer/piecer.go): ReadyToPrepare, prepare, and one turn of its daemon's inner
-- loop. The calculation of a piece commitment is libraries' and a parameter.
use broker_core.Base.{
  ℕ, String, Bool, true, false, Option, none, some, not, ltb, nat_eq, str_eq, if◌then◌else◌,
}
use broker_core.Effects.{
  message, unavailable, Result, ok, err, panicked, pure, lift, require, publish, logged, succeeds,
  caught, ◌>>=◌, ◌>>◌,
}
use broker_core.Brokerd.Types.{Cid, is_defined, DataPreparationResult}
use broker_core.Piecerd.Schema.{Row, Status}
use broker_core.Piecerd.Store
use broker_core.Piecerd.Store.{Message, Action, Command}

-- `comm_p` is what the libraries calculate for the data of a cid, a raw commitment and a size, `pad` is
-- PadCommP, `commitment_cid` DataCommitmentV1ToCID, each none for an error.
pub record Env : Type 0 where
  pub retry_delay : ℕ
  pub pad_to_size : ℕ
  pub is_cid : String → Bool
  pub comm_p : Cid → Option (String × ℕ)
  pub pad : String → ℕ → ℕ → Option String
  pub commitment_cid : String → Option Cid

-- ReadyToPrepare; the signal to the daemon only wakes it up.
unfoldable pub ready_to_prepare : String → Cid → Command
ready_to_prepare i c = do
  require (not (str_eq i "")) (message "batch id is empty")
  require (is_defined c) (message "data-cid is undefined")
  Store.create_unprepared_batch i c

-- PublishMsgNewBatchPrepared
unfoldable pub publish_new_batch_prepared : Message → Command
publish_new_batch_prepared m = do
  require (not (str_eq m.batch_id "")) (message "batch-id is empty")
  require (is_defined m.piece_cid) (message "piece-cid is undefined")
  require (not (nat_eq m.piece_size 0)) (message "piece-size is zero")
  publish m

abbrev pub or_error : {A : Type 0} → Option A → Result A
or_error none = err unavailable
or_error (some a) = ok a

-- The commitment and the size, padded if the size is too small.
unfoldable pub padded : Env → String × ℕ → Option (String × ℕ)
padded env (raw, size) =
    let larger : Option (String × ℕ) = elim (env.pad raw size env.pad_to_size) [
      | none ↦ none
      | some p ↦ some (p, env.pad_to_size)
    ] in
    if ltb size env.pad_to_size then larger else some (raw, size)

-- The part of prepare that calculates.
unfoldable pub calculate : Env → Cid → Action DataPreparationResult
calculate env c = do
  raw ← lift (or_error (env.comm_p c))
  p ← lift (or_error (padded env raw))
  piece_cid ← lift (or_error (env.commitment_cid p.0))
  pure (record { piece_size = p.1; piece_cid = piece_cid })

-- prepare
unfoldable pub prepare : Env → Row → Command
prepare env r = do
  dpr ← calculate env r.data_cid
  publish_new_batch_prepared
      (record { batch_id = r.batch_id; piece_cid = dpr.piece_cid; piece_size = dpr.piece_size })

unfoldable pub retry_later : Env → Row → Action Bool
retry_later env r = do
  logged (Store.move_to_status r.batch_id env.retry_delay Status.pending)
  pure false

unfoldable pub finish : Env → Row → Bool → Action Bool
finish env r false = retry_later env r
finish env r true = do
  moved ← succeeds (Store.move_to_status r.batch_id 0 Status.finished)
  if moved then pure true else retry_later env r

unfoldable pub prepare_row : Env → Result (Option Row) → Action Bool
prepare_row env (ok (some r)) = do prepared ← succeeds (prepare env r); finish env r prepared
prepare_row env (ok none) = pure false
prepare_row env (err e) = pure false
prepare_row env panicked = pure false

-- A turn of the inner loop of daemonPreparer, and whether the loop goes on.
unfoldable pub prepare_next : Env → Action Bool
prepare_next env = do next ← caught (Store.get_next_pending env.is_cid); prepare_row env next
