-- ===== src/Effects/Gives.antt =====
-- What actions send, and what they return when they return: every message that has been sent satisfies
-- `P`, and a result satisfies `Q`.
use broker_core.Base.{
  ◌≡◌, refl, Bool, true, false, Option, none, some, List, [], ◌∷◌, All, All-append, ℕ, String,
  if◌then◌else◌,
}
use broker_core.Effects.{
  Error, Result, ok, err, panicked, World, Exec, Done, pure, raise, panic, gets, lift, continue,
  ◌>>=◌, done, require, attempt, attempt_by, exec, exec_returning, query, insert, insert_to,
  publish, new_id, logged, ignoring, succeeds, succeeding, caught, catching, with_tx, with_tx_by,
  own_tx, begin_tx, closing, close_tx, commit_with, settle,
}

module _ {D M A : Type 0} where
  abbrev pub Outcome : (M → Type 0) → (A → Type 0) → Result A × World D M → Type 0
  Outcome P Q (ok a, w) = Q a × All P w.sent
  Outcome P Q (err e, w) = All P w.sent
  Outcome P Q (panicked, w) = All P w.sent

  pub record Gives (P : M → Type 0) (Q : A → Type 0) (m : Exec D M A) : Type 0 where
    pub at : (w : World D M) → All P w.sent → Outcome P Q (m w)

-- Any result.
abbrev pub Any : {A : Type 0} → A → Type 0
Any a = Unit

module _ {D M A : Type 0} (P : M → Type 0) (Q : A → Type 0) where
  pub Gives-pure : (a : A) → Q a → Gives {D = D} P Q (pure a)
  unfolding pure
  Gives-pure a q = record { at = λ w h. (q, h) }

  pub Gives-raise : (e : Error) → Gives {D = D} P Q (raise e)
  unfolding raise
  Gives-raise e = record { at = λ w h. h }

  pub Gives-panic : Gives {D = D} P Q panic
  unfolding panic
  Gives-panic = record { at = λ w h. h }

  pub Gives-gets : (f : World D M → A) → ((w : World D M) → Q (f w)) → Gives P Q (gets f)
  unfolding gets
  Gives-gets f q = record { at = λ w h. (q w, h) }

  pub Gives-if :
      (b : Bool) (m n : Exec D M A)
      → (b ≡ true → Gives P Q m)
      → (b ≡ false → Gives P Q n)
      → Gives P Q (if b then m else n)
  Gives-if true m n g k = g refl
  Gives-if false m n g k = k refl

  Outcome-lift :
      (r : Result A) (w : World D M)
      → ((a : A) → r ≡ ok a → Q a)
      → All P w.sent
      → Outcome P Q (lift r w)
  unfolding lift
  Outcome-lift (ok a) w q h = (q a refl, h)
  Outcome-lift (err e) w q h = h
  Outcome-lift panicked w q h = h

  pub Gives-lift : (r : Result A) → ((a : A) → r ≡ ok a → Q a) → Gives {D = D} P Q (lift r)
  Gives-lift r q = record { at = λ w h. Outcome-lift r w q h }

  Outcome-map :
      (R : A → Type 0) (r : Result A × World D M)
      → ((a : A) → r.0 ≡ ok a → Q a → R a)
      → Outcome P Q r
      → Outcome P R r
  Outcome-map R (ok a, w) k h = (k a refl h.0, h.1)
  Outcome-map R (err e, w) k h = h
  Outcome-map R (panicked, w) k h = h

  pub Gives-map :
      (R : A → Type 0) (m : Exec D M A)
      → ((w : World D M) (a : A) → (m w).0 ≡ ok a → Q a → R a)
      → Gives P Q m
      → Gives P R m
  Gives-map R m k g = record { at = λ w h. Outcome-map R (m w) (k w) (g.at w h) }

module _ {D M A B : Type 0} (P : M → Type 0) (Q : A → Type 0) (R : B → Type 0) where
  Outcome-continue :
      (f : A → Exec D M B) (r : Result A × World D M)
      → Outcome P Q r
      → ((a : A) → Q a → Gives P R (f a))
      → Outcome P R (continue r.0 f r.1)
  unfolding continue
  Outcome-continue f (ok a, w) h k = (k a h.0).at w h.1
  Outcome-continue f (err e, w) h k = h
  Outcome-continue f (panicked, w) h k = h

  pub Gives-bind :
      (m : Exec D M A) (f : A → Exec D M B)
      → Gives P Q m
      → ((a : A) → Q a → Gives P R (f a))
      → Gives P R (m >>= f)
  unfolding ◌>>=◌
  Gives-bind m f g k = record { at = λ w h. Outcome-continue f (m w) (g.at w h) k }

module _ {D M : Type 0} (P : M → Type 0) where
  pub Gives-done : Gives {D = D} P Any done
  unfolding done
  Gives-done = Gives-pure P Any tt tt

  pub Gives-require : (b : Bool) (e : Error) → Gives {D = D} P (λ _. b ≡ true) (require b e)
  unfolding require
  Gives-require true e = Gives-pure P (λ _. true ≡ true) tt refl
  Gives-require false e = Gives-raise P (λ _. false ≡ true) e

  Outcome-attempt_by :
      (fs : List Bool) (w : World D M) → All P w.sent → Outcome P Any (attempt_by fs w)
  unfolding attempt_by
  Outcome-attempt_by [] w h = (tt, h)
  Outcome-attempt_by (true ∷ fs) w h = h
  Outcome-attempt_by (false ∷ fs) w h = (tt, h)

  pub Gives-attempt : Gives {D = D} P Any attempt
  unfolding attempt
  Gives-attempt = record { at = λ w h. Outcome-attempt_by w.faults w h }

  pub Gives-exec : (f : D → D) → Gives P Any (exec f)
  unfolding exec
  Gives-exec f = Gives-bind P Any Any _ _ Gives-attempt (λ _ _. record { at = λ w h. (tt, h) })

  Outcome-insert_to : (r : Result D) (w : World D M) → All P w.sent → Outcome P Any (insert_to r w)
  unfolding insert_to
  Outcome-insert_to (ok d) w h = (tt, h)
  Outcome-insert_to (err e) w h = h
  Outcome-insert_to panicked w h = h

  pub Gives-insert : (f : D → Result D) → Gives P Any (insert f)
  unfolding insert
  Gives-insert f =
      Gives-bind P Any Any _ _ Gives-attempt
        (λ _ _. record { at = λ w h. Outcome-insert_to (f w.db) w h })

  pub Gives-publish : (m : M) → P m → Gives {D = D} P Any (publish m)
  unfolding publish
  Gives-publish m p =
      Gives-bind P Any Any _ _ Gives-attempt
        (λ _ _. record { at = λ w h. (tt, All-append P w.sent (m ∷ []) h (p, tt)) })

  pub Gives-new_id : (id : ℕ → String) → Gives {D = D} P Any (new_id id)
  unfolding new_id
  Gives-new_id id = Gives-bind P Any Any _ _ Gives-attempt (λ _ _. record { at = λ w h. (tt, h) })

  Outcome-ignoring :
      (r : Result (Unit {0}) × World D M) → Outcome P Any r → Outcome P Any (ignoring r)
  unfolding ignoring
  Outcome-ignoring (ok _, w) h = h
  Outcome-ignoring (err e, w) h = (tt, h)
  Outcome-ignoring (panicked, w) h = h

  pub Gives-logged : (m : Done D M) → Gives P Any m → Gives P Any (logged m)
  unfolding logged
  Gives-logged m g = record { at = λ w h. Outcome-ignoring (m w) (g.at w h) }

  Outcome-succeeding :
      (r : Result (Unit {0}) × World D M) → Outcome P Any r → Outcome P Any (succeeding r)
  unfolding succeeding
  Outcome-succeeding (ok _, w) h = h
  Outcome-succeeding (err e, w) h = (tt, h)
  Outcome-succeeding (panicked, w) h = h

  pub Gives-succeeds : (m : Done D M) → Gives P Any m → Gives P Any (succeeds m)
  unfolding succeeds
  Gives-succeeds m g = record { at = λ w h. Outcome-succeeding (m w) (g.at w h) }

-- The caught error, or a result.
abbrev pub Caught : {A : Type 0} → (A → Type 0) → Result A → Type 0
Caught Q (ok a) = Q a
Caught Q (err e) = Unit
Caught Q panicked = ⊥

module _ {D M A : Type 0} (P : M → Type 0) where
  pub Gives-query : (f : D → Result A) → Gives P Any (query f)
  unfolding query
  Gives-query f =
      Gives-bind P Any Any _ _ (Gives-attempt P)
        (λ _ _. record { at = λ w h. Outcome-lift P Any (f w.db) w (λ _ _. tt) h })

  pub Gives-exec_returning : (f : D → A × D) → Gives P Any (exec_returning f)
  unfolding exec_returning
  Gives-exec_returning f =
      Gives-bind P Any Any _ _ (Gives-attempt P) (λ _ _. record { at = λ w h. (tt, h) })

  Outcome-catching :
      (Q : A → Type 0) (r : Result A × World D M)
      → Outcome P Q r
      → Outcome P (Caught Q) (catching r)
  unfolding catching
  Outcome-catching Q (ok a, w) h = h
  Outcome-catching Q (err e, w) h = (tt, h)
  Outcome-catching Q (panicked, w) h = h

  pub Gives-caught : (Q : A → Type 0) (m : Exec D M A) → Gives P Q m → Gives P (Caught Q) (caught m)
  unfolding caught
  Gives-caught Q m g = record { at = λ w h. Outcome-catching Q (m w) (g.at w h) }

  Outcome-settle :
      (Q : A → Type 0) (d : D) (a : A) (r : Result (Unit {0}) × World D M)
      → Q a
      → Outcome P Any r
      → Outcome P Q (settle d a r)
  unfolding settle
  Outcome-settle Q d a (ok _, w) q h = (q, h.1)
  Outcome-settle Q d a (err e, w) q h = h
  Outcome-settle Q d a (panicked, w) q h = h

  Outcome-close_tx :
      (Q : A → Type 0) (d : D) (r : Result A × World D M)
      → Outcome P Q r
      → Outcome P Q (close_tx d r.0 r.1)
  unfolding close_tx commit_with attempt
  Outcome-close_tx Q d (ok a, w) h =
      Outcome-settle Q d a (attempt_by w.faults w) h.0 (Outcome-attempt_by P w.faults w h.1)
  Outcome-close_tx Q d (err e, w) h = h
  Outcome-close_tx Q d (panicked, w) h = h

  Outcome-begin_tx :
      (Q : A → Type 0) (run : Exec D M A) (r : Result (Unit {0}) × World D M)
      → Outcome P Any r
      → Gives P Q run
      → Outcome P Q (begin_tx run r)
  unfolding begin_tx
  Outcome-begin_tx Q run (ok _, w) h g = g.at (record w { snapshot = some w.db }) h.1
  Outcome-begin_tx Q run (err e, w) h g = h
  Outcome-begin_tx Q run (panicked, w) h g = h

  Outcome-with_tx_by :
      (Q : A → Type 0) (s : Option D) (body : Exec D M A) (w : World D M)
      → Gives P Q body
      → All P w.sent
      → Outcome P Q (with_tx_by s body w)
  unfolding with_tx_by own_tx attempt closing
  Outcome-with_tx_by Q none body w g h =
      Outcome-begin_tx Q (closing body) (attempt_by w.faults w) (Outcome-attempt_by P w.faults w h)
        (closing-Gives Q body g)
    where
      closing-Gives :
          (Q : A → Type 0) (body : Exec D M A) → Gives P Q body → Gives P Q (closing body)
      closing-Gives Q body g = record { at = λ v k. Outcome-close_tx Q v.db (body v) (g.at v k) }
  Outcome-with_tx_by Q (some d) body w g h = g.at w h

  pub Gives-with_tx :
      (Q : A → Type 0) (body : Exec D M A) → Gives P Q body → Gives P Q (with_tx body)
  unfolding with_tx
  Gives-with_tx Q body g = record { at = λ w h. Outcome-with_tx_by Q w.snapshot body w g h }
