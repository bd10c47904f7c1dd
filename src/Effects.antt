-- ===== src/Effects.antt =====
-- Go functions that work on a database inside a transaction and publish messages: storeutil/txwrapper.go
-- and the calls of database/sql, of the message broker and of the ULID source that the daemons make.
--
-- What a daemon can reach is one `World`: its database, the messages it has published, the identifiers
-- it has drawn, the clock, and what the outside world does to its calls. Each call that can fail for a
-- reason outside the program (a statement, a commit, a publication, a new identifier) takes one entry
-- of `faults`; `true` makes it fail and an empty list is a world without failures. Statements of one
-- transaction see no other transaction, as under the serializable level that the code asks for.
pub mod After
pub mod Keeps
pub mod Tx
pub mod Stays
pub mod Fails
pub mod Calm
pub mod Ends
pub mod Gives
pub mod Triple
pub mod SentTx
pub mod Errors
use broker_core.Base.{
  ℕ, ◌+◌, String, Bool, true, false, Option, none, some, List, [], ◌∷◌, ◌++◌, if◌then◌else◌,
}

-- An error is its cause; the text that `fmt.Errorf` puts in front of a cause is dropped.
pub data Error : Type 0 where
  unavailable no_rows unique_violation not_found operation_exists batch_exists : Error
  invalid_cid empty_group auction_data_exists : Error
  unknown_storage_request : List String → Error
  message : String → Error

-- `panicked` is a run-time panic, which deferred calls still see.
pub data Result {ℓ} (A : Type ℓ) : Type ℓ where
  ok : A → Result A
  err : Error → Result A
  panicked : Result A

-- `snapshot` is the database as it stood when the open transaction began.
pub record World (D M : Type 0) : Type 0 where
  pub db : D
  pub snapshot : Option D
  pub sent : List M
  pub drawn : ℕ
  pub now : ℕ
  pub faults : List Bool

abbrev pub Exec : Type 0 → Type 0 → Type 0 → Type 0
Exec D M A = World D M → Result A × World D M

abbrev pub Done : Type 0 → Type 0 → Type 0
Done D M = Exec D M Unit

module _ {D M A : Type 0} where
  pub pure : A → Exec D M A
  pure a w = (ok a, w)

  pub raise : Error → Exec D M A
  raise e w = (err e, w)

  pub panic : Exec D M A
  panic w = (panicked, w)

  pub gets : (World D M → A) → Exec D M A
  gets f w = (ok (f w), w)

  pub lift : Result A → Exec D M A
  lift r w = (r, w)

module _ {D M A B : Type 0} where
  unfoldable pub continue : Result A → (A → Exec D M B) → Exec D M B
  continue (ok a) f w = f a w
  continue (err e) f w = (err e, w)
  continue panicked f w = (panicked, w)

  infixl 10 ◌>>=◌ ◌>>◌
  unfoldable pub ◌>>=◌ : Exec D M A → (A → Exec D M B) → Exec D M B
  unfolding pure raise panic gets lift continue
  ◌>>=◌ m f w = let (r, w') = m w in continue r f w'

  abbrev pub ◌>>◌ : Exec D M A → Exec D M B → Exec D M B
  m >> n = m >>= λ _. n

module _ {D M : Type 0} where
  unfoldable pub done : Done D M
  unfolding pure
  done = pure tt

  -- if !b { return errors.New(e) }
  unfoldable pub require : Bool → Error → Done D M
  unfolding raise pure
  require b e = if b then pure tt else raise e

  attempt_by : List Bool → World D M → Result (Unit {0}) × World D M
  attempt_by [] w = (ok tt, w)
  attempt_by (b ∷ bs) w = (if b then err unavailable else ok tt, record w { faults = bs })

  -- One call that the outside world may fail.
  unfoldable pub attempt : Done D M
  unfolding attempt_by
  attempt w = attempt_by w.faults w

  -- A statement that changes the database.
  unfoldable pub exec : (D → D) → Done D M
  unfolding attempt ◌>>=◌
  exec f = attempt >> λ w. (ok tt, record w { db = f w.db })

  -- txn.Rollback: the database is again the one that the transaction began with.
  unfoldable pub rollback : D → World D M → World D M
  rollback d w = record w { db = d; snapshot = none }

module _ {D M A : Type 0} where
  -- A query, which may find nothing or break a constraint.
  unfoldable pub query : (D → Result A) → Exec D M A
  unfolding attempt ◌>>=◌ lift
  query f = attempt >> λ w. (f w.db, w)

module _ {D M A : Type 0} where
  -- A statement that changes the database and returns something of it.
  unfoldable pub exec_returning : (D → A × D) → Exec D M A
  unfolding attempt ◌>>=◌
  exec_returning f = attempt >> λ w. let (a, d) = f w.db in (ok a, record w { db = d })

module _ {D M : Type 0} where
  -- A statement that a constraint may reject; it then changes nothing.
  insert_to : Result D → World D M → Result (Unit {0}) × World D M
  insert_to (ok d) w = (ok tt, record w { db = d })
  insert_to (err e) w = (err e, w)
  insert_to panicked w = (panicked, w)

  unfoldable pub insert : (D → Result D) → Done D M
  unfolding attempt ◌>>=◌ insert_to
  insert f = attempt >> λ w. insert_to (f w.db) w

  -- marshalAndPublish
  unfoldable pub publish : M → Done D M
  unfolding attempt ◌>>=◌
  publish m = attempt >> λ w. (ok tt, record w { sent = w.sent ++ m ∷ [] })

  -- newID: the n-th identifier that the ULID source gives.
  unfoldable pub new_id : (ℕ → String) → Exec D M String
  unfolding attempt ◌>>=◌
  new_id id = attempt >> λ w. (ok (id w.drawn), record w { drawn = w.drawn + 1 })

module _ {D M A : Type 0} where
  settle : D → A → Result (Unit {0}) × World D M → Result A × World D M
  unfolding rollback
  settle d a (ok _, w) = (ok a, record w { snapshot = none })
  settle d a (err e, w) = (err e, rollback d w)
  settle d a (panicked, w) = (panicked, rollback d w)

  -- txn.Commit, with the result to return; a commit that fails has written nothing.
  unfoldable pub commit_with : D → A → Exec D M A
  unfolding settle attempt
  commit_with d a w = settle d a (attempt w)

module _ {D M A : Type 0} where
  -- FinishTxForCtx, deferred with the function's named result: a panic leaves the error nil, and so
  -- the transaction is committed before the panic goes on.
  finish_tx : D → Result A → World D M → Result A × World D M
  unfolding commit_with rollback
  finish_tx d (ok a) w = commit_with d a w
  finish_tx d (err e) w = (err e, rollback d w)
  finish_tx d panicked w = (panicked, (commit_with d tt w).1)

  -- db.BeginTx, which may fail; what runs in the transaction finds it in its context.
  begin_tx : Exec D M A → Result (Unit {0}) × World D M → Result A × World D M
  begin_tx run (ok _, w) = run (record w { snapshot = some w.db })
  begin_tx run (err e, w) = (err e, w)
  begin_tx run (panicked, w) = (panicked, w)

  finishing : Exec D M A → Exec D M A
  unfolding finish_tx
  finishing body w = let (r, w') = body w in finish_tx w.db r w'

  -- CtxWithTx, then the body under the deferred FinishTxForCtx.
  unfoldable pub deferred_tx : Exec D M A → Exec D M A
  unfolding begin_tx attempt finishing
  deferred_tx body w = begin_tx (finishing body) (attempt w)

  -- The end of WithTx's own transaction: here a panic rolls back.
  close_tx : D → Result A → World D M → Result A × World D M
  unfolding commit_with rollback
  close_tx d (ok a) w = commit_with d a w
  close_tx d (err e) w = (err e, rollback d w)
  close_tx d panicked w = (panicked, rollback d w)

  closing : Exec D M A → Exec D M A
  unfolding close_tx
  closing body w = let (r, w') = body w in close_tx w.db r w'

  pub own_tx : Exec D M A → Exec D M A
  unfolding begin_tx attempt closing
  own_tx body w = begin_tx (closing body) (attempt w)

  with_tx_by : Option D → Exec D M A → Exec D M A
  with_tx_by none body = own_tx body
  with_tx_by (some _) body = body

  -- WithTx: a transaction that the context carries is used, and is left open.
  unfoldable pub with_tx : Exec D M A → Exec D M A
  unfolding with_tx_by own_tx
  with_tx body w = with_tx_by w.snapshot body w

module _ {D M : Type 0} where
  ignoring : Result (Unit {0}) × World D M → Result (Unit {0}) × World D M
  ignoring (ok _, w) = (ok tt, w)
  ignoring (err e, w) = (ok tt, w)
  ignoring (panicked, w) = (panicked, w)

  -- A call whose error is logged and otherwise ignored.
  unfoldable pub logged : Done D M → Done D M
  unfolding ignoring
  logged m w = ignoring (m w)

  succeeding : Result (Unit {0}) × World D M → Result Bool × World D M
  succeeding (ok _, w) = (ok true, w)
  succeeding (err e, w) = (ok false, w)
  succeeding (panicked, w) = (panicked, w)

  -- Whether a call gives no error.
  unfoldable pub succeeds : Done D M → Exec D M Bool
  unfolding succeeding
  succeeds m w = succeeding (m w)

module _ {D M A : Type 0} where
  catching : Result A × World D M → Result (Result A) × World D M
  catching (ok a, w) = (ok (ok a), w)
  catching (err e, w) = (ok (err e), w)
  catching (panicked, w) = (panicked, w)

  -- The error of a call as a value, where the caller goes on.
  unfoldable pub caught : Exec D M A → Exec D M (Result A)
  unfolding catching
  caught m w = catching (m w)
