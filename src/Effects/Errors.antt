-- ===== src/Effects/Errors.antt =====
-- With which results and which errors an action ends, whatever it does to the world.
use broker_core.Base.{Bool, true, false, Option, none, some, List, [], ◌∷◌}
use broker_core.Effects.{
  Error, unavailable, Result, ok, err, panicked, World, Exec, pure, lift, continue, ◌>>=◌, done,
  require, attempt, attempt_by, exec_returning, insert, insert_to, with_tx, with_tx_by, own_tx,
  begin_tx, closing, close_tx, commit_with, settle,
}

abbrev pub Came : {A : Type 0} → (A → Type 0) → (Error → Type 0) → Result A → Type 0
Came Q E (ok a) = Q a
Came Q E (err e) = E e
Came Q E panicked = Unit

pub record Errs {D M A : Type 0} (Q : A → Type 0) (E : Error → Type 0) (m : Exec D M A)
    : Type 0 where
  pub at : (w : World D M) → Came Q E (m w).0

abbrev pub Any : {A : Type 0} → A → Type 0
Any a = Unit

module _ {D M A B : Type 0} (Q : A → Type 0) (R : B → Type 0) (E : Error → Type 0) where
  Came-continue :
      (f : A → Exec D M B) (r : Result A × World D M)
      → Came Q E r.0
      → ((a : A) → Q a → Errs R E (f a))
      → Came R E (continue r.0 f r.1).0
  unfolding continue
  Came-continue f (ok a, w) h k = (k a h).at w
  Came-continue f (err e, w) h k = h
  Came-continue f (panicked, w) h k = tt

  pub Errs-bind :
      (m : Exec D M A) (f : A → Exec D M B)
      → Errs Q E m
      → ((a : A) → Q a → Errs R E (f a))
      → Errs R E (m >>= f)
  unfolding ◌>>=◌
  Errs-bind m f g k = record { at = λ w. Came-continue f (m w) (g.at w) k }

module _ {D M A : Type 0} (Q : A → Type 0) (E : Error → Type 0) where
  pub Errs-pure : (a : A) → Q a → Errs {D = D} {M = M} Q E (pure a)
  unfolding pure
  Errs-pure a q = record { at = λ w. q }

  pub Errs-lift : (r : Result A) → Came Q E r → Errs {D = D} {M = M} Q E (lift r)
  unfolding lift
  Errs-lift r h = record { at = λ w. h }

module _ {D M : Type 0} (E : Error → Type 0) where
  pub Errs-done : Errs {D = D} {M = M} Any E done
  unfolding done
  Errs-done = Errs-pure Any E tt tt

  pub Errs-require : (b : Bool) (e : Error) → E e → Errs {D = D} {M = M} Any E (require b e)
  unfolding require
  Errs-require true e h = record { at = λ w. tt }
  Errs-require false e h = record { at = λ w. h }

-- The errors of calls that the outside world may fail.
module _ {D M : Type 0} (E : Error → Type 0) (u : E unavailable) where
  Came-attempt_by : (fs : List Bool) (w : World D M) → Came Any E (attempt_by fs w).0
  unfolding attempt_by
  Came-attempt_by [] w = tt
  Came-attempt_by (true ∷ fs) w = u
  Came-attempt_by (false ∷ fs) w = tt

  pub Errs-attempt : Errs {D = D} {M = M} Any E attempt
  unfolding attempt
  Errs-attempt = record { at = λ w. Came-attempt_by w.faults w }

  Came-insert_to : (r : Result D) (w : World D M) → Came Any E r → Came Any E (insert_to r w).0
  unfolding insert_to
  Came-insert_to (ok d) w h = tt
  Came-insert_to (err e) w h = h
  Came-insert_to panicked w h = tt

  pub Errs-insert :
      (f : D → Result D) → ((d : D) → Came Any E (f d)) → Errs {M = M} Any E (insert f)
  unfolding insert
  Errs-insert f k =
      Errs-bind Any Any E _ _ Errs-attempt
        (λ _ _. record { at = λ w. Came-insert_to (f w.db) w (k w.db) })

  pub Errs-exec_returning :
      {A : Type 0} (Q : A → Type 0) (f : D → A × D)
      → ((d : D) → Q (f d).0)
      → Errs {M = M} Q E (exec_returning f)
  unfolding exec_returning
  Errs-exec_returning Q f k =
      Errs-bind Any Q E _ _ Errs-attempt (λ _ _. record { at = λ w. k w.db })

module _ {D M A : Type 0} (E : Error → Type 0) (u : E unavailable) (Q : A → Type 0) where
  Came-settle :
      (d : D) (a : A) (r : Result (Unit {0}) × World D M)
      → Q a
      → Came Any E r.0
      → Came Q E (settle d a r).0
  unfolding settle
  Came-settle d a (ok _, w) q h = q
  Came-settle d a (err e, w) q h = h
  Came-settle d a (panicked, w) q h = tt

  Came-close_tx :
      (d : D) (r : Result A × World D M) → Came Q E r.0 → Came Q E (close_tx d r.0 r.1).0
  unfolding close_tx commit_with
  Came-close_tx d (ok a, w) h = Came-settle d a (attempt w) h ((Errs-attempt E u).at w)
  Came-close_tx d (err e, w) h = h
  Came-close_tx d (panicked, w) h = tt

  closing-Errs : (body : Exec D M A) → Errs Q E body → Errs Q E (closing body)
  unfolding closing
  closing-Errs body g = record { at = λ w. Came-close_tx w.db (body w) (g.at w) }

  Came-begin_tx :
      (run : Exec D M A) (r : Result (Unit {0}) × World D M)
      → Came Any E r.0
      → Errs Q E run
      → Came Q E (begin_tx run r).0
  unfolding begin_tx
  Came-begin_tx run (ok _, w) h g = g.at (record w { snapshot = some w.db })
  Came-begin_tx run (err e, w) h g = h
  Came-begin_tx run (panicked, w) h g = tt

  Came-with_tx_by :
      (s : Option D) (body : Exec D M A) (w : World D M)
      → Errs Q E body
      → Came Q E (with_tx_by s body w).0
  unfolding with_tx_by own_tx
  Came-with_tx_by none body w g =
      Came-begin_tx (closing body) (attempt w) ((Errs-attempt E u).at w) (closing-Errs body g)
  Came-with_tx_by (some d) body w g = g.at w

  pub Errs-with_tx : (body : Exec D M A) → Errs Q E body → Errs Q E (with_tx body)
  unfolding with_tx
  Errs-with_tx body g = record { at = λ w. Came-with_tx_by w.snapshot body w g }
