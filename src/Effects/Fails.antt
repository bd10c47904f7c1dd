-- ===== src/Effects/Fails.antt =====
-- What a transaction that returns has left, and actions that always fail.
use broker_core.Base.{◌≡◌, refl, Bool, true, false, List, [], ◌∷◌}
use broker_core.Effects.{
  Error, Result, ok, err, panicked, World, Exec, deferred_tx, begin_tx, finish_tx, finishing,
  commit_with, attempt_by, settle, ◌>>=◌, continue, exec_returning, attempt, require, raise, pure,
}
use broker_core.Effects.Keeps.{After}

abbrev pub Fails {ℓ} : {A : Type ℓ} → Result A → Type 0
Fails (ok a) = ⊥
Fails (err e) = Unit
Fails panicked = ⊥

pub Fails-err {ℓ} : {A : Type ℓ} (r : Result A) → Fails r → (e : Error) × (r ≡ err e)
Fails-err (ok a) h = absurd h
Fails-err (err e) h = (e, refl)
Fails-err panicked h = absurd h

module _ {D M A : Type 0} where
  settle-ok :
      (R : D → Type 0) (d : D) (a b : A) (w : World D M) (fs : List Bool)
      → R w.db
      → (settle d a (attempt_by fs w)).0 ≡ ok b
      → R (settle d a (attempt_by fs w)).1.db
  unfolding settle attempt_by
  settle-ok R d a b w [] h e = h
  settle-ok R d a b w (true ∷ fs) h e = cc
  settle-ok R d a b w (false ∷ fs) h e = h

  finish_tx-ok :
      (R : D → Type 0) (d : D) (r : Result A × World D M) (b : A)
      → After (λ _. Unit) (λ _ w. R w.db) r
      → (finish_tx d r.0 r.1).0 ≡ ok b
      → R (finish_tx d r.0 r.1).1.db
  unfolding finish_tx commit_with
  finish_tx-ok R d (ok a, w) b h e = settle-ok R d a b w w.faults h e
  finish_tx-ok R d (err x, w) b h e = cc
  finish_tx-ok R d (panicked, w) b h e = cc

  begin-ok :
      (R : D → Type 0) (run : Exec D M A) (w : World D M) (fs : List Bool) (b : A)
      → ((w' : World D M) → (run w').0 ≡ ok b → R (run w').1.db)
      → (begin_tx run (attempt_by fs w)).0 ≡ ok b
      → R (begin_tx run (attempt_by fs w)).1.db
  unfolding attempt_by begin_tx
  begin-ok R run w [] b k e = k _ e
  begin-ok R run w (true ∷ fs) b k e = cc
  begin-ok R run w (false ∷ fs) b k e = k _ e

  pub deferred_tx-ok :
      (R : D → Type 0) (body : Exec D M A) (w : World D M) (b : A)
      → ((w' : World D M) → After (λ _. Unit) (λ _ w''. R w''.db) (body w'))
      → (deferred_tx body w).0 ≡ ok b
      → R (deferred_tx body w).1.db
  unfolding deferred_tx
  deferred_tx-ok R body w b k e =
      begin-ok R (finishing body) w w.faults b (λ w' q. finish_tx-ok R w'.db (body w') b (k w') q) e

  finish_tx-Fails : (d : D) (r : Result A × World D M) → Fails r.0 → Fails (finish_tx d r.0 r.1).0
  unfolding finish_tx
  finish_tx-Fails d (ok a, w) h = absurd h
  finish_tx-Fails d (err e, w) h = tt
  finish_tx-Fails d (panicked, w) h = absurd h

  begin-Fails :
      (run : Exec D M A) (w : World D M) (fs : List Bool)
      → ((w' : World D M) → w'.db ≡ w.db → Fails (run w').0)
      → Fails (begin_tx run (attempt_by fs w)).0
  unfolding attempt_by begin_tx
  begin-Fails run w [] k = k _ refl
  begin-Fails run w (true ∷ fs) k = tt
  begin-Fails run w (false ∷ fs) k = k _ refl

  pub deferred_tx-Fails :
      (body : Exec D M A) (w : World D M)
      → ((w' : World D M) → w'.db ≡ w.db → Fails (body w').0)
      → Fails (deferred_tx body w).0
  unfolding deferred_tx
  deferred_tx-Fails body w k =
      begin-Fails (finishing body) w w.faults (λ w' e. finish_tx-Fails w'.db (body w') (k w' e))

module _ {D M A B : Type 0} (f : A → Exec D M B) where
  Fails-attempt :
      (g : D → A × D) (w : World D M) (fs : List Bool)
      → ((gs : List Bool) → Fails (f (g w.db).0 (record w { db = (g w.db).1; faults = gs })).0)
      → Fails
          (continue
            (continue
              (attempt_by fs w).0
              (λ _ w'. let (a, d) = g w'.db in (ok a, record w' { db = d }))
              (attempt_by fs w).1).0
            f
            (continue
              (attempt_by fs w).0
              (λ _ w'. let (a, d) = g w'.db in (ok a, record w' { db = d }))
              (attempt_by fs w).1).1).0
  unfolding attempt_by continue
  Fails-attempt g w [] k = k w.faults
  Fails-attempt g w (true ∷ fs) k = tt
  Fails-attempt g w (false ∷ fs) k = k fs

  pub Fails-exec_returning :
      (g : D → A × D) (w : World D M)
      → ((gs : List Bool) → Fails (f (g w.db).0 (record w { db = (g w.db).1; faults = gs })).0)
      → Fails ((exec_returning g >>= f) w).0
  unfolding exec_returning ◌>>=◌ attempt
  Fails-exec_returning g w k = Fails-attempt g w w.faults k

module _ {D M B : Type 0} (f : Unit {0} → Exec D M B) where
  pub Fails-require :
      (b : Bool) (e : Error) (w : World D M) → b ≡ false → Fails ((require b e >>= f) w).0
  unfolding require raise ◌>>=◌ continue
  Fails-require b e w h = rw h tt

  pub Fails-after_require :
      (b : Bool) (e : Error) (w : World D M)
      → (b ≡ true → Fails (f tt w).0)
      → Fails ((require b e >>= f) w).0
  unfolding require raise pure ◌>>=◌ continue
  Fails-after_require true e w k = k refl
  Fails-after_require false e w k = tt

module _ {D M B : Type 0} (R : D → Type 0) (f : Unit {0} → Exec D M B) where
  pub ok-after_require :
      (b : Bool) (e : Error) (w : World D M) (x : B)
      → ((f tt w).0 ≡ ok x → R (f tt w).1.db)
      → ((require b e >>= f) w).0 ≡ ok x
      → R ((require b e >>= f) w).1.db
  unfolding require raise pure ◌>>=◌ continue
  ok-after_require true e w x k q = k q
  ok-after_require false e w x k q = cc
