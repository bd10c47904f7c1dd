-- ===== src/Effects/Stays.antt =====
-- What holds of the database after an action whatever its outcome, at the level of a whole call, whose
-- context carries no transaction; and actions whose errors leave the database as it was.
use broker_core.Base.{
  ◌≡◌, refl, ◌∙◌, String, Bool, true, false, Option, none, some, List, [], ◌∷◌, ℕ,
}
use broker_core.Effects.{
  Done, logged, ignoring, Error, Result, ok, err, panicked, World, Exec, pure, raise, gets, lift,
  continue, ◌>>=◌, done, require, new_id, publish, insert, insert_to, attempt, attempt_by,
  deferred_tx, with_tx, with_tx_by, own_tx, begin_tx, finishing, finish_tx, closing, close_tx,
  commit_with, settle,
}
use broker_core.Effects.Keeps.{Keeps}
use broker_core.Effects.Tx.{deferred_tx-holds, own_tx-holds, deferred_tx-err, with_tx-err}

-- No transaction is open, and `I` holds of the database.
pub record AtRest {D M : Type 0} (I : D → Type 0) (w : World D M) : Type 0 where
  pub closed : w.snapshot ≡ none
  pub holds : I w.db

pub record Stays {D M A : Type 0} (I : D → Type 0) (m : Exec D M A) : Type 0 where
  pub at : (w : World D M) → AtRest I w → AtRest I (m w).1

module _ {D M A : Type 0} {I : D → Type 0} where
  pub Stays-pure : (a : A) → Stays {M = M} I (pure a)
  unfolding pure
  Stays-pure a = record { at = λ w h. h }

  pub Stays-lift : (r : Result A) → Stays {M = M} I (lift r)
  unfolding lift
  Stays-lift r = record { at = λ w h. h }

  pub Stays-gets : (f : World D M → A) → Stays I (gets f)
  unfolding gets
  Stays-gets f = record { at = λ w h. h }

module _ {D M A B : Type 0} {I : D → Type 0} where
  Stays-continue :
      (f : A → Exec D M B) (r : Result A × World D M)
      → AtRest I r.1
      → ((a : A) → Stays I (f a))
      → AtRest I (continue r.0 f r.1).1
  unfolding continue
  Stays-continue f (ok a, w) h k = (k a).at w h
  Stays-continue f (err e, w) h k = h
  Stays-continue f (panicked, w) h k = h

  pub Stays-bind :
      (m : Exec D M A) (f : A → Exec D M B)
      → Stays I m
      → ((a : A) → Stays I (f a))
      → Stays I (m >>= f)
  unfolding ◌>>=◌
  Stays-bind m f km kf = record { at = λ w h. Stays-continue f (m w) (km.at w h) kf }

  pub Stays-bind_lift :
      (r : Result A) (f : A → Exec D M B)
      → ((a : A) → r ≡ ok a → Stays I (f a))
      → Stays I (lift r >>= f)
  unfolding ◌>>=◌ lift continue
  Stays-bind_lift (ok a) f k = record { at = λ w h. (k a refl).at w h }
  Stays-bind_lift (err e) f k = record { at = λ w h. h }
  Stays-bind_lift panicked f k = record { at = λ w h. h }

module _ {D M : Type 0} {I : D → Type 0} where
  pub Stays-done : Stays {M = M} I done
  unfolding done
  Stays-done = Stays-pure tt

  pub Stays-require : (b : Bool) (e : Error) → Stays {M = M} I (require b e)
  unfolding require raise
  Stays-require true e = Stays-pure tt
  Stays-require false e = record { at = λ w h. h }

  attempted : (w : World D M) (fs : List Bool) → AtRest I w → AtRest I (attempt_by fs w).1
  unfolding attempt_by
  attempted w [] h = h
  attempted w (b ∷ fs) h = record { closed = h.closed; holds = h.holds }

  Stays-attempt : Stays {M = M} I attempt
  unfolding attempt
  Stays-attempt = record { at = λ w h. attempted w w.faults h }

  pub Stays-new_id : (id : ℕ → String) → Stays {M = M} I (new_id id)
  unfolding new_id
  Stays-new_id id =
      Stays-bind _ _ Stays-attempt
        (λ _. record { at = λ w h. record { closed = h.closed; holds = h.holds } })

  pub Stays-publish : (m : M) → Stays I (publish m)
  unfolding publish
  Stays-publish m =
      Stays-bind _ _ Stays-attempt
        (λ _. record { at = λ w h. record { closed = h.closed; holds = h.holds } })

  inserted :
      (r : Result D) (w : World D M)
      → ((d : D) → r ≡ ok d → I d)
      → AtRest I w
      → AtRest I (insert_to r w).1
  unfolding insert_to
  inserted (ok d) w k h = record { closed = h.closed; holds = k d refl }
  inserted (err e) w k h = h
  inserted panicked w k h = h

  pub Stays-insert :
      (f : D → Result D) → ((d d' : D) → f d ≡ ok d' → I d → I d') → Stays {M = M} I (insert f)
  unfolding insert
  Stays-insert f k =
      Stays-bind _ _ Stays-attempt
        (λ _. record { at = λ w h. inserted (f w.db) w (λ d e. k w.db d e h.holds) h })

-- A transaction that the call opens is closed at its end.
module _ {D M A : Type 0} where
  settle-closed :
      (d : D) (a : A) (r : Result (Unit {0}) × World D M) → (settle d a r).1.snapshot ≡ none
  unfolding settle
  settle-closed d a (ok _, w) = refl
  settle-closed d a (err e, w) = refl
  settle-closed d a (panicked, w) = refl

module _ {D M A : Type 0} where
  finish_tx-closed : (d : D) (r : Result A × World D M) → (finish_tx d r.0 r.1).1.snapshot ≡ none
  unfolding finish_tx commit_with
  finish_tx-closed d (ok a, w) = settle-closed d a _
  finish_tx-closed d (err e, w) = refl
  finish_tx-closed d (panicked, w) = settle-closed d tt _

  close_tx-closed : (d : D) (r : Result A × World D M) → (close_tx d r.0 r.1).1.snapshot ≡ none
  unfolding close_tx commit_with
  close_tx-closed d (ok a, w) = settle-closed d a _
  close_tx-closed d (err e, w) = refl
  close_tx-closed d (panicked, w) = refl

  begin_tx-closed :
      (run : Exec D M A) (w : World D M) (fs : List Bool)
      → w.snapshot ≡ none
      → ((w' : World D M) → (run w').1.snapshot ≡ none)
      → (begin_tx run (attempt_by fs w)).1.snapshot ≡ none
  unfolding begin_tx attempt_by
  begin_tx-closed run w [] h k = k _
  begin_tx-closed run w (true ∷ fs) h k = h
  begin_tx-closed run w (false ∷ fs) h k = k _

  deferred_tx-closed :
      (body : Exec D M A) (w : World D M)
      → w.snapshot ≡ none
      → (deferred_tx body w).1.snapshot ≡ none
  unfolding deferred_tx finishing attempt
  deferred_tx-closed body w h =
      begin_tx-closed (finishing body) w w.faults h (λ w'. finish_tx-closed w'.db (body w'))

  own_tx-closed :
      (body : Exec D M A) (w : World D M) → w.snapshot ≡ none → (own_tx body w).1.snapshot ≡ none
  unfolding own_tx closing attempt
  own_tx-closed body w h =
      begin_tx-closed (closing body) w w.faults h (λ w'. close_tx-closed w'.db (body w'))

module _ {D M A : Type 0} {I : D → Type 0} where
  pub Stays-deferred_tx : (body : Exec D M A) → Keeps I body → Stays I (deferred_tx body)
  Stays-deferred_tx body k = record {
    at = λ w h. record {
      closed = deferred_tx-closed body w h.closed;
      holds = deferred_tx-holds I body w k h.holds;
    };
  }

  with_tx_by-AtRest :
      (s : Option D) (body : Exec D M A) (w : World D M)
      → s ≡ none
      → Keeps I body
      → AtRest I w
      → AtRest I (with_tx_by s body w).1
  unfolding with_tx_by
  with_tx_by-AtRest none body w e k h = record {
    closed = own_tx-closed body w h.closed;
    holds = own_tx-holds I body w k h.holds;
  }
  with_tx_by-AtRest (some d) body w e k h = cc

  pub Stays-with_tx : (body : Exec D M A) → Keeps I body → Stays I (with_tx body)
  unfolding with_tx
  Stays-with_tx body k = record { at = λ w h. with_tx_by-AtRest w.snapshot body w h.closed k h }

module _ {D M : Type 0} {I : D → Type 0} where
  ignoring-AtRest : (r : Result (Unit {0}) × World D M) → AtRest I r.1 → AtRest I (ignoring r).1
  unfolding ignoring
  ignoring-AtRest (ok _, w) h = h
  ignoring-AtRest (err e, w) h = h
  ignoring-AtRest (panicked, w) h = h

  pub Stays-logged : (m : Done D M) → Stays I m → Stays I (logged m)
  unfolding logged
  Stays-logged m k = record { at = λ w h. ignoring-AtRest (m w) (k.at w h) }

-- An error leaves the database as it was.
pub record Atomic {D M A : Type 0} (m : Exec D M A) : Type 0 where
  pub at : (w : World D M) (e : Error) → w.snapshot ≡ none → (m w).0 ≡ err e → (m w).1.db ≡ w.db

module _ {D M A : Type 0} where
  pub Atomic-deferred_tx : (body : Exec D M A) → Atomic (deferred_tx body)
  Atomic-deferred_tx body = record { at = λ w e n h. deferred_tx-err body w e h }

  pub Atomic-with_tx : (body : Exec D M A) → Atomic (with_tx body)
  Atomic-with_tx body = record { at = λ w e n h. with_tx-err body w e n h }

module _ {D M A B : Type 0} where
  Atomic-continue :
      (f : A → Exec D M B) (d : D) (r : Result A × World D M) (e : Error)
      → AtRest (λ x. x ≡ d) r.1
      → ((a : A) → Atomic (f a))
      → (continue r.0 f r.1).0 ≡ err e
      → (continue r.0 f r.1).1.db ≡ d
  unfolding continue
  Atomic-continue f d (ok a, w) e h k q = (k a).at w e h.closed q ∙ h.holds
  Atomic-continue f d (err x, w) e h k q = h.holds
  Atomic-continue f d (panicked, w) e h k q = cc

  -- First something that writes nothing.
  pub Atomic-bind :
      (m : Exec D M A) (f : A → Exec D M B)
      → ((d : D) → Stays (λ x. x ≡ d) m)
      → ((a : A) → Atomic (f a))
      → Atomic (m >>= f)
  unfolding ◌>>=◌
  Atomic-bind m f s k = record {
    at = λ w e n h.
        Atomic-continue f w.db (m w) e ((s w.db).at w (record { closed = n; holds = refl })) k h;
  }

  then_pure :
      (g : A → B) (d : D) (r : Result A × World D M) (e : Error)
      → ((e' : Error) → r.0 ≡ err e' → r.1.db ≡ d)
      → (continue r.0 (λ a. pure (g a)) r.1).0 ≡ err e
      → (continue r.0 (λ a. pure (g a)) r.1).1.db ≡ d
  unfolding continue pure
  then_pure g d (ok a, w) e k q = cc
  then_pure g d (err x, w) e k q = k x refl
  then_pure g d (panicked, w) e k q = cc

  -- Then something that cannot fail.
  pub Atomic-pure : (m : Exec D M A) (g : A → B) → Atomic m → Atomic (m >>= λ a. pure (g a))
  unfolding ◌>>=◌
  Atomic-pure m g k = record { at = λ w e n h. then_pure g w.db (m w) e (λ e' q. k.at w e' n q) h }
