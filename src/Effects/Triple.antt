-- ===== src/Effects/Triple.antt =====
-- Actions with a condition on the database and the messages before them, `P`, one after them that speaks
-- of their result, `Q`, and one after an error or a panic, `J`.
use broker_core.Base.{◌≡◌, refl, Bool, true, false, List, [], ◌∷◌, ◌++◌, if◌then◌else◌}
use broker_core.Effects.{
  Error, Result, ok, err, panicked, World, Exec, Done, pure, raise, gets, lift, continue, ◌>>=◌,
  require, attempt, attempt_by, exec, exec_returning, insert, insert_to, publish, logged, ignoring,
  succeeds, succeeding, caught, catching,
}

-- A condition on the database and the messages.
abbrev pub Cond : Type 0 → Type 0 → Type 1
Cond D M = D → List M → Type 0

module _ {D M A : Type 0} where
  abbrev pub Post : (A → Cond D M) → Cond D M → Result A × World D M → Type 0
  Post Q J (ok a, w) = Q a w.db w.sent
  Post Q J (err e, w) = J w.db w.sent
  Post Q J (panicked, w) = J w.db w.sent

  pub record Triple (P : Cond D M) (Q : A → Cond D M) (J : Cond D M) (m : Exec D M A) : Type 0 where
    pub at : (w : World D M) → P w.db w.sent → Post Q J (m w)

module _ {D M A : Type 0} (P : Cond D M) (Q : A → Cond D M) (J : Cond D M) where
  pub Triple-raise : (e : Error) → ((d : D) (s : List M) → P d s → J d s) → Triple P Q J (raise e)
  unfolding raise
  Triple-raise e k = record { at = λ w h. k w.db w.sent h }

  pub Triple-pure : (a : A) → ((d : D) (s : List M) → P d s → Q a d s) → Triple P Q J (pure a)
  unfolding pure
  Triple-pure a k = record { at = λ w h. k w.db w.sent h }

  pub Triple-gets :
      (f : World D M → A) → ((a : A) (d : D) (s : List M) → P d s → Q a d s) → Triple P Q J (gets f)
  unfolding gets
  Triple-gets f k = record { at = λ w h. k (f w) w.db w.sent h }

  Post-lift :
      (r : Result A) (w : World D M)
      → ((a : A) (d : D) (s : List M) → r ≡ ok a → P d s → Q a d s)
      → ((d : D) (s : List M) → P d s → J d s)
      → P w.db w.sent
      → Post Q J (lift r w)
  unfolding lift
  Post-lift (ok a) w k j h = k a w.db w.sent refl h
  Post-lift (err e) w k j h = j w.db w.sent h
  Post-lift panicked w k j h = j w.db w.sent h

  pub Triple-lift :
      (r : Result A)
      → ((a : A) (d : D) (s : List M) → r ≡ ok a → P d s → Q a d s)
      → ((d : D) (s : List M) → P d s → J d s)
      → Triple P Q J (lift r)
  Triple-lift r k j = record { at = λ w h. Post-lift r w k j h }

  pub Triple-if :
      (b : Bool) (m n : Exec D M A)
      → (b ≡ true → Triple P Q J m)
      → (b ≡ false → Triple P Q J n)
      → Triple P Q J (if b then m else n)
  Triple-if true m n f g = f refl
  Triple-if false m n f g = g refl

  Post-map :
      (R : A → Cond D M) (r : Result A × World D M)
      → ((a : A) (d : D) (s : List M) → Q a d s → R a d s)
      → Post Q J r
      → Post R J r
  Post-map R (ok a, w) k h = k a w.db w.sent h
  Post-map R (err e, w) k h = h
  Post-map R (panicked, w) k h = h

  pub Triple-map :
      (R : A → Cond D M) (m : Exec D M A)
      → ((a : A) (d : D) (s : List M) → Q a d s → R a d s)
      → Triple P Q J m
      → Triple P R J m
  Triple-map R m k t = record { at = λ w h. Post-map R (m w) k (t.at w h) }

module _ {D M A B : Type 0} (P : Cond D M) (Q : A → Cond D M) (R : B → Cond D M)
    (J : Cond D M) where
  Post-continue :
      (f : A → Exec D M B) (r : Result A × World D M)
      → Post Q J r
      → ((a : A) → Triple (Q a) R J (f a))
      → Post R J (continue r.0 f r.1)
  unfolding continue
  Post-continue f (ok a, w) h k = (k a).at w h
  Post-continue f (err e, w) h k = h
  Post-continue f (panicked, w) h k = h

  pub Triple-bind :
      (m : Exec D M A) (f : A → Exec D M B)
      → Triple P Q J m
      → ((a : A) → Triple (Q a) R J (f a))
      → Triple P R J (m >>= f)
  unfolding ◌>>=◌
  Triple-bind m f t k = record { at = λ w h. Post-continue f (m w) (t.at w h) k }

-- An action after which one condition holds in any case.
abbrev pub Keeping : {D M A : Type 0} → Cond D M → A → Cond D M
Keeping J a = J

module _ {D M : Type 0} (P J : Cond D M) (p : (d : D) (s : List M) → P d s → J d s) where
  Post-attempt_by :
      (fs : List Bool) (w : World D M) → P w.db w.sent → Post (Keeping P) J (attempt_by fs w)
  unfolding attempt_by
  Post-attempt_by [] w h = h
  Post-attempt_by (true ∷ fs) w h = p w.db w.sent h
  Post-attempt_by (false ∷ fs) w h = h

  pub Triple-attempt : Triple P (Keeping P) J attempt
  unfolding attempt
  Triple-attempt = record { at = λ w h. Post-attempt_by w.faults w h }

  pub Triple-require :
      (b : Bool) (e : Error) → Triple P (λ _ d s. (b ≡ true) × P d s) J (require b e)
  unfolding require raise
  Triple-require true e = Triple-pure P _ J tt (λ d s h. (refl, h))
  Triple-require false e = record { at = λ w h. p w.db w.sent h }

  module _ (Q : Unit {0} → Cond D M) where
    pub Triple-exec :
        (f : D → D) → ((d : D) (s : List M) → P d s → Q tt (f d) s) → Triple P Q J (exec f)
    unfolding exec
    Triple-exec f k =
        Triple-bind P (Keeping P) Q J _ _ Triple-attempt
          (λ _. record { at = λ w h. k w.db w.sent h })

    pub Triple-publish :
        (m : M) → ((d : D) (s : List M) → P d s → Q tt d (s ++ m ∷ [])) → Triple P Q J (publish m)
    unfolding publish
    Triple-publish m k =
        Triple-bind P (Keeping P) Q J _ _ Triple-attempt
          (λ _. record { at = λ w h. k w.db w.sent h })

    Post-insert_to :
        (r : Result D) (w : World D M)
        → ((d' : D) → r ≡ ok d' → Q tt d' w.sent)
        → P w.db w.sent
        → Post Q J (insert_to r w)
    unfolding insert_to
    Post-insert_to (ok d) w k h = k d refl
    Post-insert_to (err e) w k h = p w.db w.sent h
    Post-insert_to panicked w k h = p w.db w.sent h

    pub Triple-insert :
        (f : D → Result D)
        → ((d d' : D) (s : List M) → f d ≡ ok d' → P d s → Q tt d' s)
        → Triple P Q J (insert f)
    unfolding insert
    Triple-insert f k =
        Triple-bind P (Keeping P) Q J _ _ Triple-attempt
          (λ _. record { at = λ w h. Post-insert_to (f w.db) w (λ d' e. k w.db d' w.sent e h) h })

  pub Triple-exec_returning :
      {A : Type 0} (Q : A → Cond D M) (f : D → A × D)
      → ((d : D) (s : List M) → P d s → Q (f d).0 (f d).1 s)
      → Triple P Q J (exec_returning f)
  unfolding exec_returning
  Triple-exec_returning Q f k =
      Triple-bind P (Keeping P) Q J _ _ Triple-attempt (λ _. record { at = λ w h. k w.db w.sent h })

-- Errors that the caller sees as values.
module _ {D M : Type 0} (P J : Cond D M) where
  Post-ignoring :
      (r : Result (Unit {0}) × World D M) → Post (Keeping J) J r → Post (Keeping J) J (ignoring r)
  unfolding ignoring
  Post-ignoring (ok _, w) h = h
  Post-ignoring (err e, w) h = h
  Post-ignoring (panicked, w) h = h

  pub Triple-logged : (m : Done D M) → Triple P (Keeping J) J m → Triple P (Keeping J) J (logged m)
  unfolding logged
  Triple-logged m t = record { at = λ w h. Post-ignoring (m w) (t.at w h) }

  -- What holds after success.
  abbrev pub OnSuccess : Cond D M → Bool → Cond D M
  OnSuccess Q true = Q
  OnSuccess Q false = J

  Post-succeeding :
      (Q : Cond D M) (r : Result (Unit {0}) × World D M)
      → Post (Keeping Q) J r
      → Post (OnSuccess Q) J (succeeding r)
  unfolding succeeding
  Post-succeeding Q (ok _, w) h = h
  Post-succeeding Q (err e, w) h = h
  Post-succeeding Q (panicked, w) h = h

  pub Triple-succeeds :
      (Q : Cond D M) (m : Done D M)
      → Triple P (Keeping Q) J m
      → Triple P (OnSuccess Q) J (succeeds m)
  unfolding succeeds
  Triple-succeeds Q m t = record { at = λ w h. Post-succeeding Q (m w) (t.at w h) }

module _ {D M A : Type 0} (P J : Cond D M) where
  Post-catching :
      (r : Result A × World D M) → Post (Keeping J) J r → Post (Keeping J) J (catching r)
  unfolding catching
  Post-catching (ok a, w) h = h
  Post-catching (err e, w) h = h
  Post-catching (panicked, w) h = h

  pub Triple-caught :
      (m : Exec D M A) → Triple P (Keeping J) J m → Triple P (Keeping J) J (caught m)
  unfolding caught
  Triple-caught m t = record { at = λ w h. Post-catching (m w) (t.at w h) }

  -- What holds of the result, if there is one.
  abbrev pub OnOk : (A → Cond D M) → Result A → Cond D M
  OnOk Q (ok a) = Q a
  OnOk Q (err e) = J
  OnOk Q panicked = J

  Post-catching_ok :
      (Q : A → Cond D M) (r : Result A × World D M) → Post Q J r → Post (OnOk Q) J (catching r)
  unfolding catching
  Post-catching_ok Q (ok a, w) h = h
  Post-catching_ok Q (err e, w) h = h
  Post-catching_ok Q (panicked, w) h = h

  pub Triple-caught_ok :
      (Q : A → Cond D M) (m : Exec D M A) → Triple P Q J m → Triple P (OnOk Q) J (caught m)
  unfolding caught
  Triple-caught_ok Q m t = record { at = λ w h. Post-catching_ok Q (m w) (t.at w h) }
