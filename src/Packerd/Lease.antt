-- ===== src/Packerd/Lease.antt =====
-- The batch that GetNextReadyBatch returns, and its requests.
use broker_core.Base.{
  ℕ, ◌+◌, ◌≡◌, ◌∙◌, refl, String, Option, none, some, List, [], ◌∷◌, str_eq, arith, inl, inr,
  Bool-cases, subst,
}
use broker_core.Base.Rows.{select}
use broker_core.Effects.{World, Result, ok, err, panicked, with_tx, ◌>>=◌, exec_returning}
use broker_core.Effects.Keeps.{After, >>=-After, exec_returning-After, query-After, pure-After}
use broker_core.Effects.Calm.{gets-then, with_tx-result}
use broker_core.Packerd.Schema
use broker_core.Packerd.Schema.{BatchRow, RequestRow, Db, is_next}
use broker_core.Packerd.Store
use broker_core.Packerd.Store.{Message, stuck}
use broker_core.Packerd.Tally.{IsTallied, sum_of, least-All, select-All}

abbrev pub total_of : List RequestRow → ℕ
total_of [] = 0
total_of (r ∷ rs) = r.size + total_of rs

sum_of-select :
    (i : String) (rs : List RequestRow)
    → sum_of i rs ≡ total_of (select (λ r. str_eq r.batch_id i) rs)
unfolding sum_of select
sum_of-select i [] = refl
sum_of-select i (r ∷ rs) = elim (Bool-cases (str_eq r.batch_id i)) [
  | inl e ↦ rw (e, sum_of-select i rs) refl
  | inr e ↦ rw (e, sum_of-select i rs) (omega arith)
]

abbrev Sized : Option (BatchRow × List RequestRow) → Type 0
Sized none = Unit
Sized (some (b, srs)) = b.total_size ≡ total_of srs

-- The size of the batch is right in the database that the requests are read from.
with_requests-Sized :
    (o : Option BatchRow) (w : World Db Message)
    → ((b : BatchRow) → o ≡ some b → b.total_size ≡ sum_of b.batch_id w.db.requests)
    → After (λ _. Unit) (λ x _. Sized x) (Store.with_requests o w)
unfolding Store.with_requests Schema.get_storage_requests_from_batch
with_requests-Sized none w k = pure-After (λ _. Unit) (λ x _. Sized x) none w tt
with_requests-Sized (some b) w k =
    >>=-After (λ _. Unit) (λ x _. Sized x) _ _ w
      (query-After (λ _. Unit) _ _ w (λ e. cc)
        (λ srs fs e.
          pure-After (λ _. Unit) (λ x _. Sized x) (some (b, srs)) _
            (k b refl ∙ sum_of-select b.batch_id w.db.requests ∙ requests srs e)))
  where
    requests :
        (srs : List RequestRow)
        → ok (select (λ r. str_eq r.batch_id b.batch_id) w.db.requests) ≡ ok srs
        → total_of (select (λ r. str_eq r.batch_id b.batch_id) w.db.requests) ≡ total_of srs
    requests srs e = cc

lease-requests :
    (now : ℕ) (o : Option BatchRow) (d : Db) → (Schema.lease now o d).requests ≡ d.requests
lease-requests now none d = refl
lease-requests now (some b) d = refl

next-Sized :
    (now : ℕ) (w : World Db Message)
    → IsTallied w.db
    → After
        (λ _. Unit)
        (λ x _. Sized x)
        ((exec_returning (Schema.get_next_ready_batch stuck now) >>= Store.with_requests) w)
unfolding Schema.get_next_ready_batch
next-Sized now w h =
    >>=-After (λ _. Unit) (λ x _. Sized x) _ Store.with_requests w
      (exec_returning-After (λ _. Unit) _ _ w
        (λ fs. with_requests-Sized _ _ (λ b e.
          rw
            (lease-requests now
              (Schema.least (λ x. x.ready_at) (select (is_next stuck now) w.db.batches)) w.db)
            (least-All _ (λ x. x.ready_at) (select (is_next stuck now) w.db.batches) b
              (select-All _ (is_next stuck now) w.db.batches h.sums) e))))

After-ok :
    {A : Type 0} (Q : A → Type 0) (r : Result A × World Db Message) (a : A)
    → After (λ _. Unit {0}) (λ x _. Q x) r
    → r.0 ≡ ok a
    → Q a
After-ok Q (ok x, w) a h e = subst Q (cc) h
After-ok Q (err x, w) a h e = cc
After-ok Q (panicked, w) a h e = cc

-- The size of the batch that GetNextReadyBatch returns is the sum of the sizes of the requests that it
-- returns with it, if the sizes in the database are right before it.
pub get_next_ready_batch-total :
    (w : World Db Message) (b : BatchRow) (srs : List RequestRow)
    → IsTallied w.db
    → (Store.get_next_ready_batch w).0 ≡ ok (some (b, srs))
    → b.total_size ≡ total_of srs
unfolding Store.get_next_ready_batch
get_next_ready_batch-total w b srs h e =
    with_tx-result Sized _ w (some (b, srs))
      (λ w' x p q. After-ok Sized _ x (next-Sized w.now w' (rw p h)) q)
      (rw
        (gets-then (λ v. v.now)
          (λ now.
            with_tx
              (exec_returning (Schema.get_next_ready_batch stuck now) >>= Store.with_requests))
          w)
        at e)
