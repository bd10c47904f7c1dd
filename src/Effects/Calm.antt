-- ===== src/Effects/Calm.antt =====
-- What actions do in a world without failures.
use broker_core.Base.{◌≡◌, refl, subst, Bool, true, false, Option, none, some, List, [], ◌∷◌}
use broker_core.Effects.{
  Result, ok, err, panicked, World, Exec, pure, gets, exec, attempt, attempt_by, continue, settle,
  close_tx, commit_with, begin_tx, own_tx, closing, with_tx, with_tx_by, ◌>>=◌, ◌>>◌,
}

ok_inj : {A : Type 0} (x y : A) → ok x ≡ ok y → x ≡ y
ok_inj x y e = cc

module _ {D M A : Type 0} where
  pub pure-calm : (a : A) (w : World D M) → pure a w ≡ (ok a, w)
  unfolding pure
  pure-calm a w = refl

module _ {D M A B : Type 0} where
  pub >>=-ok :
      (m : Exec D M A) (f : A → Exec D M B) (w w' : World D M) (a : A)
      → m w ≡ (ok a, w')
      → (m >>= f) w ≡ f a w'
  unfolding ◌>>=◌ continue
  >>=-ok m f w w' a e = rw e refl

module _ {D M A : Type 0} where
  pub exec-calm :
      (f : D → D) (m : Exec D M A) (w : World D M)
      → w.faults ≡ []
      → (exec f >> m) w ≡ m (record w { db = f w.db })
  unfolding exec attempt attempt_by ◌>>=◌ continue
  exec-calm f m w e = rw e refl

module _ {D M A B : Type 0} where
  pub gets-then :
      (g : World D M → A) (f : A → Exec D M B) (w : World D M) → (gets g >>= f) w ≡ f (g w) w
  unfolding ◌>>=◌ continue
  gets-then g f w = refl

-- What a transaction returns, its body has returned on the same database.
module _ {D M A : Type 0} (R : A → Type 0) where
  settle-result :
      (d : D) (a b : A) (w : World D M) (fs : List Bool)
      → R a
      → (settle d a (attempt_by fs w)).0 ≡ ok b
      → R b
  unfolding settle attempt_by
  settle-result d a b w [] h e = subst R (ok_inj a b e) h
  settle-result d a b w (true ∷ fs) h e = cc
  settle-result d a b w (false ∷ fs) h e = subst R (ok_inj a b e) h

  close_tx-result :
      (d : D) (r : Result A × World D M) (b : A)
      → ((a : A) → r.0 ≡ ok a → R a)
      → (close_tx d r.0 r.1).0 ≡ ok b
      → R b
  unfolding close_tx commit_with
  close_tx-result d (ok a, w) b k e = settle-result d a b w w.faults (k a refl) e
  close_tx-result d (err x, w) b k e = cc
  close_tx-result d (panicked, w) b k e = cc

  begin-result :
      (run : Exec D M A) (w : World D M) (fs : List Bool) (b : A)
      → ((w' : World D M) → w'.db ≡ w.db → (run w').0 ≡ ok b → R b)
      → (begin_tx run (attempt_by fs w)).0 ≡ ok b
      → R b
  unfolding attempt_by begin_tx
  begin-result run w [] b k e = k _ refl e
  begin-result run w (true ∷ fs) b k e = cc
  begin-result run w (false ∷ fs) b k e = k _ refl e

  own_tx-result :
      (body : Exec D M A) (w : World D M) (b : A)
      → ((w' : World D M) (a : A) → w'.db ≡ w.db → (body w').0 ≡ ok a → R a)
      → (own_tx body w).0 ≡ ok b
      → R b
  unfolding own_tx
  own_tx-result body w b k e =
      begin-result (closing body) w w.faults b
        (λ w' p q. close_tx-result w'.db (body w') b (λ a h. k w' a p h) q) e

  with_tx_by-result :
      (s : Option D) (body : Exec D M A) (w : World D M) (b : A)
      → ((w' : World D M) (a : A) → w'.db ≡ w.db → (body w').0 ≡ ok a → R a)
      → (with_tx_by s body w).0 ≡ ok b
      → R b
  unfolding with_tx_by
  with_tx_by-result none body w b k e = own_tx-result body w b k e
  with_tx_by-result (some d) body w b k e = k w b refl e

  pub with_tx-result :
      (body : Exec D M A) (w : World D M) (b : A)
      → ((w' : World D M) (a : A) → w'.db ≡ w.db → (body w').0 ≡ ok a → R a)
      → (with_tx body w).0 ≡ ok b
      → R b
  unfolding with_tx
  with_tx-result body w b k e = with_tx_by-result w.snapshot body w b k e
