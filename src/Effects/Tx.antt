-- ===== src/Effects/Tx.antt =====
-- Transactions: what an action leaves in the database when it runs in one.
use broker_core.Base.{◌≡◌, refl, ◌∙◌, Bool, true, false, Option, none, some, List, [], ◌∷◌}
use broker_core.Effects.{
  Error, Result, ok, err, panicked, World, Exec, deferred_tx, begin_tx, with_tx, finish_tx,
  finishing, close_tx, closing, commit_with, own_tx, with_tx_by, attempt_by, settle,
}
use broker_core.Effects.Keeps.{After, Keeps}

-- Whatever the outcome, what holds of the database before and after the body holds at the end.
module _ {D M A : Type 0} (I : D → Type 0) where
  settle-holds :
      (d : D) (a : A) (w : World D M) (fs : List Bool)
      → I d
      → I w.db
      → I (settle d a (attempt_by fs w)).1.db
  unfolding settle attempt_by
  settle-holds d a w [] hd hw = hw
  settle-holds d a w (true ∷ fs) hd hw = hd
  settle-holds d a w (false ∷ fs) hd hw = hw

  commit_with-holds : (d : D) (a : A) (w : World D M) → I d → I w.db → I (commit_with d a w).1.db
  unfolding commit_with
  commit_with-holds d a w hd hw = settle-holds d a w w.faults hd hw

module _ {D M A : Type 0} (I : D → Type 0) where
  finish_tx-holds :
      (d : D) (r : Result A × World D M)
      → I d
      → After (λ w'. I w'.db) (λ _ w'. I w'.db) r
      → I (finish_tx d r.0 r.1).1.db
  unfolding finish_tx
  finish_tx-holds d (ok a, w) hd hw = commit_with-holds I d a w hd hw
  finish_tx-holds d (err e, w) hd hw = hd
  finish_tx-holds d (panicked, w) hd hw = commit_with-holds I d tt w hd hw

  close_tx-holds :
      (d : D) (r : Result A × World D M)
      → I d
      → After (λ w'. I w'.db) (λ _ w'. I w'.db) r
      → I (close_tx d r.0 r.1).1.db
  unfolding close_tx
  close_tx-holds d (ok a, w) hd hw = commit_with-holds I d a w hd hw
  close_tx-holds d (err e, w) hd hw = hd
  close_tx-holds d (panicked, w) hd hw = hd

  begin-holds :
      (run : Exec D M A) (w : World D M) (fs : List Bool)
      → I w.db
      → ((w' : World D M) → w'.db ≡ w.db → I (run w').1.db)
      → I (begin_tx run (attempt_by fs w)).1.db
  unfolding attempt_by begin_tx
  begin-holds run w [] h k = k _ refl
  begin-holds run w (true ∷ fs) h k = h
  begin-holds run w (false ∷ fs) h k = k _ refl

  pub deferred_tx-holds :
      (body : Exec D M A) (w : World D M) → Keeps I body → I w.db → I (deferred_tx body w).1.db
  unfolding deferred_tx
  deferred_tx-holds body w k h =
      begin-holds (finishing body) w w.faults h
        (λ w' e. finish_tx-holds w'.db (body w') (rw e h) (k.at w' (rw e h)))

  pub own_tx-holds :
      (body : Exec D M A) (w : World D M) → Keeps I body → I w.db → I (own_tx body w).1.db
  unfolding own_tx
  own_tx-holds body w k h =
      begin-holds (closing body) w w.faults h
        (λ w' e. close_tx-holds w'.db (body w') (rw e h) (k.at w' (rw e h)))

  After-of_holds : (r : Result A × World D M) → I r.1.db → After (λ w'. I w'.db) (λ _ w'. I w'.db) r
  After-of_holds (ok a, w) h = h
  After-of_holds (err e, w) h = tt
  After-of_holds (panicked, w) h = h

  with_tx_by-After :
      (s : Option D) (body : Exec D M A) (w : World D M)
      → Keeps I body
      → I w.db
      → After (λ w'. I w'.db) (λ _ w'. I w'.db) (with_tx_by s body w)
  unfolding with_tx_by
  with_tx_by-After none body w k h = After-of_holds _ (own_tx-holds body w k h)
  with_tx_by-After (some d) body w k h = k.at w h

  pub Keeps-with_tx : (body : Exec D M A) → Keeps I body → Keeps I (with_tx body)
  unfolding with_tx
  Keeps-with_tx body k = record { at = λ w h. with_tx_by-After w.snapshot body w k h }

  pub Keeps-deferred_tx : (body : Exec D M A) → Keeps I body → Keeps I (deferred_tx body)
  Keeps-deferred_tx body k = record { at = λ w h. After-of_holds _ (deferred_tx-holds body w k h) }

-- An error leaves the database as it was before the transaction.
module _ {D M A : Type 0} where
  settle-err :
      (d : D) (a : A) (w : World D M) (fs : List Bool) (e : Error)
      → (settle d a (attempt_by fs w)).0 ≡ err e
      → (settle d a (attempt_by fs w)).1.db ≡ d
  unfolding settle attempt_by
  settle-err d a w [] e h = cc
  settle-err d a w (true ∷ fs) e h = refl
  settle-err d a w (false ∷ fs) e h = cc

  finish_tx-err :
      (d : D) (r : Result A × World D M) (e : Error)
      → (finish_tx d r.0 r.1).0 ≡ err e
      → (finish_tx d r.0 r.1).1.db ≡ d
  unfolding finish_tx commit_with
  finish_tx-err d (ok a, w) e h = settle-err d a w w.faults e h
  finish_tx-err d (err e', w) e h = refl
  finish_tx-err d (panicked, w) e h = cc

  begin-err :
      (run : Exec D M A) (w : World D M) (fs : List Bool) (e : Error)
      → ((w' : World D M) → w'.db ≡ w.db → (run w').0 ≡ err e → (run w').1.db ≡ w.db)
      → (begin_tx run (attempt_by fs w)).0 ≡ err e
      → (begin_tx run (attempt_by fs w)).1.db ≡ w.db
  unfolding attempt_by begin_tx
  begin-err run w [] e k h = k _ refl h
  begin-err run w (true ∷ fs) e k h = refl
  begin-err run w (false ∷ fs) e k h = k _ refl h

  pub deferred_tx-err :
      (body : Exec D M A) (w : World D M) (e : Error)
      → (deferred_tx body w).0 ≡ err e
      → (deferred_tx body w).1.db ≡ w.db
  unfolding deferred_tx
  deferred_tx-err body w e h =
      begin-err (finishing body) w w.faults e (λ w' p q. finish_tx-err w'.db (body w') e q ∙ p) h

  close_tx-err :
      (d : D) (r : Result A × World D M) (e : Error)
      → (close_tx d r.0 r.1).0 ≡ err e
      → (close_tx d r.0 r.1).1.db ≡ d
  unfolding close_tx commit_with
  close_tx-err d (ok a, w) e h = settle-err d a w w.faults e h
  close_tx-err d (err e', w) e h = refl
  close_tx-err d (panicked, w) e h = cc

  own_tx-err :
      (body : Exec D M A) (w : World D M) (e : Error)
      → (own_tx body w).0 ≡ err e
      → (own_tx body w).1.db ≡ w.db
  unfolding own_tx
  own_tx-err body w e h =
      begin-err (closing body) w w.faults e (λ w' p q. close_tx-err w'.db (body w') e q ∙ p) h

  with_tx_by-err :
      (s : Option D) (body : Exec D M A) (w : World D M) (e : Error)
      → s ≡ none
      → (with_tx_by s body w).0 ≡ err e
      → (with_tx_by s body w).1.db ≡ w.db
  unfolding with_tx_by
  with_tx_by-err none body w e n h = own_tx-err body w e h
  with_tx_by-err (some d) body w e n h = cc

  -- So does a call that opens its own transaction.
  pub with_tx-err :
      (body : Exec D M A) (w : World D M) (e : Error)
      → w.snapshot ≡ none
      → (with_tx body w).0 ≡ err e
      → (with_tx body w).1.db ≡ w.db
  unfolding with_tx
  with_tx-err body w e n h = with_tx_by-err w.snapshot body w e n h
