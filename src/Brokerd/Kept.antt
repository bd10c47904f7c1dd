-- ===== src/Brokerd/Kept.antt =====
-- Three invariants of brokerd's database and why the store keeps them: requests mirror their batches,
-- an operation stays recorded, and the rows of other batches stay as they are.
use broker_core.Base.{
  ℕ, String, ◌≡◌, refl, true, false, some, List, [], ◌∷◌, ◌++◌, arith, inl, inr, str_eq, eq_iff,
  eq_refl, All-append, contains, Bool-cases,
}
use broker_core.Base.Rows.{
  select_one, exists_row, update_rows, All-update_rows, select_one-append, select_one-update_rows,
  select_one-test,
}
use broker_core.Brokerd.Types.{Ident, BatchStatus, RequestStatus}
use broker_core.Brokerd.Schema.{BatchRow, Db}
use broker_core.Brokerd.Schema.Statements
use broker_core.Brokerd.Schema.Statements.{has_id, in_batch, in_batch_by}
use broker_core.Brokerd.Mirror.{
  mirrors, Matches, RowMirrors, IsMirrored, moved_RowMirrors, RowMirrors-append,
}
use broker_core.Brokerd.Invariant.{KeptAt}

module _ (id : Ident) where
  auctioning_IsMirrored :
      (p : String) (n : ℕ) (d : Db)
      → IsMirrored d
      → IsMirrored (
          Statements.update_storage_requests_status id RequestStatus.auctioning
            (Statements.update_batch id BatchStatus.auctioning p n d))
  unfolding Statements.update_storage_requests_status Statements.update_batch
  auctioning_IsMirrored p n d h = record {
    rows =
        moved_RowMirrors id BatchStatus.auctioning _ (λ b. refl) (λ b. refl) _ d.batches d.requests
          refl h.rows;
  }

  moving_IsMirrored :
      (st : BatchStatus) (s : RequestStatus) (d : Db)
      → mirrors st s ≡ true
      → IsMirrored d
      → IsMirrored
          (Statements.update_storage_requests_status id s (Statements.update_batch_status id st d))
  unfolding Statements.update_storage_requests_status Statements.update_batch_status
  moving_IsMirrored st s d m h = record {
    rows = moved_RowMirrors id st _ (λ b. refl) (λ b. refl) s d.batches d.requests m h.rows;
  }

  erroring_IsMirrored :
      (e : String) (s : RequestStatus) (d : Db)
      → mirrors BatchStatus.error s ≡ true
      → IsMirrored d
      → IsMirrored (
          Statements.update_storage_requests_status id s
            (Statements.update_batch_status_and_error id BatchStatus.error e d))
  unfolding Statements.update_storage_requests_status Statements.update_batch_status_and_error
  erroring_IsMirrored e s d m h = record {
    rows =
        moved_RowMirrors id BatchStatus.error _ (λ b. refl) (λ b. refl) s d.batches d.requests m
          h.rows;
  }

  rebatching_IsMirrored :
      (e : String) (d : Db) → IsMirrored d → IsMirrored (Statements.rebatch_storage_requests id e d)
  unfolding Statements.rebatch_storage_requests
  rebatching_IsMirrored e d h = record {
    rows =
        All-update_rows (RowMirrors d.batches) (RowMirrors d.batches) (in_batch id) _ d.requests
          (λ r p k. k) (λ r p k. k) h.rows;
  }

  -- The requests of a new batch find its row, which is the only one of its id.
  batched_Matches :
      (row : BatchRow) (bs : List BatchRow) (s : RequestStatus)
      → row.id ≡ id
      → mirrors row.status s ≡ true
      → exists_row (has_id id) bs ≡ false
      → Matches (select_one (has_id id) (bs ++ row ∷ [])) s
  unfolding select_one exists_row
  batched_Matches row [] s e m n = rw (e, eq_refl id) m
  batched_Matches row (b ∷ bs) s e m n = elim (Bool-cases (str_eq b.id id)) [
    | inl p ↦ cc (rw p at n)
    | inr p ↦ rw p (batched_Matches row bs s e m (rw p at n))
  ]

  batching_IsMirrored :
      (row : BatchRow) (ids : List Ident) (s : RequestStatus) (d : Db)
      → row.id ≡ id
      → mirrors row.status s ≡ true
      → exists_row (has_id id) d.batches ≡ false
      → IsMirrored d
      → IsMirrored (
          Statements.batch_update_storage_requests ids s id
            (record d { batches = d.batches ++ row ∷ [] }))
  unfolding Statements.batch_update_storage_requests
  batching_IsMirrored row ids s d e m n h = record {
    rows =
        All-update_rows (RowMirrors (d.batches ++ row ∷ [])) (RowMirrors (d.batches ++ row ∷ []))
          (λ r. contains ids r.id) _ d.requests (λ r p k. batched_Matches row d.batches s e m n)
          (λ r p k. k) (RowMirrors-append d.batches (row ∷ []) d.requests h.rows);
  }

  pub IsMirrored-KeptAt : KeptAt id IsMirrored
  IsMirrored-KeptAt = record {
    side = λ d d' eb er eo h. record { rows = rw (eb, er) h.rows };
    auctioning = auctioning_IsMirrored;
    moving = moving_IsMirrored;
    erroring = erroring_IsMirrored;
    rebatching = rebatching_IsMirrored;
    recording = λ op d h. record { rows = h.rows };
    requesting = λ r d e h. record {
      rows = All-append (RowMirrors d.batches) d.requests (r ∷ []) h.rows (rw e tt, tt);
    };
    batching = batching_IsMirrored;
  }

-- The operation has been recorded.
abbrev pub HasRecorded : Ident → Db → Type 0
HasRecorded op d = contains d.operations op ≡ true

pub contains-append :
    (xs ys : List String) (s : String) → contains xs s ≡ true → contains (xs ++ ys) s ≡ true
unfolding contains
contains-append [] ys s h = cc
contains-append (x ∷ xs) ys s h = ground (arith, contains-append xs ys s)

pub contains-append_self : (xs : List String) (s : String) → contains (xs ++ s ∷ []) s ≡ true
unfolding contains
contains-append_self [] s = rw (eq_refl s)
contains-append_self (x ∷ xs) s = ground (arith, contains-append_self xs s)

pub recorded_KeptAt : (op id : Ident) → KeptAt id (HasRecorded op)
unfolding Statements.update_storage_requests_status Statements.update_batch
    Statements.update_batch_status Statements.update_batch_status_and_error
    Statements.rebatch_storage_requests Statements.batch_update_storage_requests
recorded_KeptAt op id = record {
  side = λ d d' eb er eo h. rw eo h;
  auctioning = λ p n d h. h;
  moving = λ st s d m h. h;
  erroring = λ e s d m h. h;
  rebatching = λ e d h. h;
  recording = λ x d h. contains-append d.operations (x ∷ []) op h;
  requesting = λ r d e h. h;
  batching = λ row ids s d e m n h. h;
}

-- The invariant that holds of every database.
pub anything_KeptAt : (id : Ident) → KeptAt id (λ _. Unit)
anything_KeptAt id = record {
  side = λ d d' eb er eo h. tt;
  auctioning = λ p n d h. tt;
  moving = λ st s d m h. tt;
  erroring = λ e s d m h. tt;
  rebatching = λ e d h. tt;
  recording = λ x d h. tt;
  requesting = λ r d e h. tt;
  batching = λ row ids s d e m x h. tt;
}

-- The row of the batch `j`.
abbrev pub HasRow : Ident → BatchRow → Db → Type 0
HasRow j r d = select_one (has_id j) d.batches ≡ some r

module _ (j id : Ident) (n : str_eq j id ≡ false) where
  other_row :
      (f : BatchRow → BatchRow) (bs : List BatchRow) (r : BatchRow)
      → ((b : BatchRow) → (f b).id ≡ b.id)
      → select_one (has_id j) bs ≡ some r
      → select_one (has_id j) (update_rows (has_id id) f bs) ≡ some r
  other_row f bs r keeps e =
      let p : r.id ≡ j = (eq_iff r.id j).0 (select_one-test (has_id j) bs r e) in
      let q : str_eq r.id id ≡ false = rw p n in
      rw (select_one-update_rows (has_id j) (has_id id) f bs (λ x. rw (keeps x)), e, q)

  pub row_KeptAt : (r : BatchRow) → KeptAt id (HasRow j r)
  unfolding Statements.update_storage_requests_status Statements.update_batch
      Statements.update_batch_status Statements.update_batch_status_and_error
      Statements.rebatch_storage_requests Statements.batch_update_storage_requests
  row_KeptAt r = record {
    side = λ d d' eb er eo h. rw eb h;
    auctioning = λ p x d h. other_row _ d.batches r (λ b. refl) h;
    moving = λ st s d m h. other_row _ d.batches r (λ b. refl) h;
    erroring = λ e s d m h. other_row _ d.batches r (λ b. refl) h;
    rebatching = λ e d h. h;
    recording = λ x d h. h;
    requesting = λ q d e h. h;
    batching = λ row ids s d e m x h. rw (select_one-append (has_id j) d.batches (row ∷ []), h);
  }
