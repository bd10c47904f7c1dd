-- ===== src/Effects/Ends.antt =====
-- How an action ends: with a result or an error of some kind, and without a panic. With `c` true this is
-- for a world without failures.
use broker_core.Base.{◌≡◌, refl, Bool, true, false, List, [], ◌∷◌, ◌++◌, ◌⊎◌, inl, inr}
use broker_core.Effects.{
  Error, Result, ok, err, panicked, World, Exec, pure, raise, lift, continue, ◌>>=◌, attempt,
  attempt_by, publish, logged, ignoring, succeeds, succeeding, unavailable,
}

module _ {D M : Type 0} where
  abbrev pub Quiet : Bool → World D M → Type 0
  Quiet c w = c ≡ true → w.faults ≡ []

module _ {D M A : Type 0} where
  abbrev pub Verdict : Bool → (A → Type 0) → (Error → Type 0) → Result A × World D M → Type 0
  Verdict c Q E (ok a, w) = Q a × Quiet c w
  Verdict c Q E (err e, w) = E e
  Verdict c Q E (panicked, w) = ⊥

  pub record Ends (c : Bool) (Q : A → Type 0) (E : Error → Type 0) (m : Exec D M A) : Type 0 where
    pub at : (w : World D M) → Quiet c w → Verdict c Q E (m w)

  pub Ends-pure :
      (c : Bool) (Q : A → Type 0) (E : Error → Type 0) (a : A) → Q a → Ends c Q E (pure a)
  unfolding pure
  Ends-pure c Q E a h = record { at = λ w q. (h, q) }

  pub Ends-raise :
      (c : Bool) (Q : A → Type 0) (E : Error → Type 0) (e : Error) → E e → Ends c Q E (raise e)
  unfolding raise
  Ends-raise c Q E e h = record { at = λ w q. h }

  Verdict-map :
      (c : Bool) (Q R : A → Type 0) (E : Error → Type 0) (r : Result A × World D M)
      → ((a : A) → Q a → R a)
      → Verdict c Q E r
      → Verdict c R E r
  Verdict-map c Q R E (ok a, w) k h = (k a h.0, h.1)
  Verdict-map c Q R E (err e, w) k h = h
  Verdict-map c Q R E (panicked, w) k h = h

  pub Ends-map :
      (c : Bool) (Q R : A → Type 0) (E : Error → Type 0) (m : Exec D M A)
      → ((a : A) → Q a → R a)
      → Ends c Q E m
      → Ends c R E m
  Ends-map c Q R E m k h = record { at = λ w q. Verdict-map c Q R E (m w) k (h.at w q) }

module _ {D M A B : Type 0} where
  Verdict-continue :
      (c : Bool) (Q : A → Type 0) (R : B → Type 0) (E : Error → Type 0) (f : A → Exec D M B)
      (r : Result A × World D M)
      → Verdict c Q E r
      → ((a : A) → Q a → Ends c R E (f a))
      → Verdict c R E (continue r.0 f r.1)
  unfolding continue
  Verdict-continue c Q R E f (ok a, w) h k = (k a h.0).at w h.1
  Verdict-continue c Q R E f (err e, w) h k = h
  Verdict-continue c Q R E f (panicked, w) h k = h

  pub Ends-bind :
      (c : Bool) (Q : A → Type 0) (R : B → Type 0) (E : Error → Type 0) (m : Exec D M A)
      (f : A → Exec D M B)
      → Ends c Q E m
      → ((a : A) → Q a → Ends c R E (f a))
      → Ends c R E (m >>= f)
  unfolding ◌>>=◌
  Ends-bind c Q R E m f h k = record { at = λ w q. Verdict-continue c Q R E f (m w) (h.at w q) k }

  pub Ends-lift_ok :
      (c : Bool) (R : B → Type 0) (E : Error → Type 0) (a : A) (f : A → Exec D M B)
      → Ends c R E (f a)
      → Ends c R E (lift (ok a) >>= f)
  unfolding ◌>>=◌ lift continue
  Ends-lift_ok c R E a f h = record { at = h.at }

  pub Ends-lift_err :
      (c : Bool) (R : B → Type 0) (E : Error → Type 0) (e : Error) (f : A → Exec D M B)
      → E e
      → Ends c R E (lift (err e) >>= f)
  unfolding ◌>>=◌ lift continue
  Ends-lift_err c R E e f h = record { at = λ w q. h }

-- Sending a message.
module _ {D M : Type 0} where
  attempt_by-cases :
      (c : Bool) (fs : List Bool) (w : World D M)
      → (c ≡ true → fs ≡ [])
      → Quiet c w
      → ((w' : World D M) × (attempt_by fs w ≡ (ok tt, w')) × Quiet c w')
        ⊎ ((w' : World D M) × (attempt_by fs w ≡ (err unavailable, w')) × (c ≡ true → ⊥))
  unfolding attempt_by
  attempt_by-cases c [] w q h = inl (w, refl, h)
  attempt_by-cases c (true ∷ fs) w q h = inr (_, refl, λ e. let n = q e in cc)
  attempt_by-cases c (false ∷ fs) w q h = inl (_, refl, λ e. let n = q e in cc)

  publish-cases :
      (c : Bool) (m : M) (w : World D M)
      → Quiet c w
      → ((w' : World D M) × (publish m w ≡ (ok tt, w')) × Quiet c w')
        ⊎ ((w' : World D M) × (publish m w ≡ (err unavailable, w')) × (c ≡ true → ⊥))
  unfolding publish ◌>>=◌ attempt continue
  publish-cases c m w q = elim (attempt_by-cases c w.faults w q q) [
    | inl (w', e, h) ↦ inl (record w' { sent = w'.sent ++ m ∷ [] }, rw e refl, h)
    | inr (w', e, n) ↦ inr (w', rw e refl, n)
  ]

  pub Ends-logged-publish :
      (c : Bool) (E : Error → Type 0) (m : M) → Ends {D = D} c (λ _. Unit) E (logged (publish m))
  unfolding logged ignoring
  Ends-logged-publish c E m = record {
    at = λ w q. elim (publish-cases c m w q) [
      | inl (w', e, h) ↦ rw e (tt, h)
      | inr (w', e, n) ↦ rw e (tt, λ t. absurd (n t))
    ];
  }

  -- A message that is sent without a failure has been delivered.
  pub Ends-succeeds-publish :
      (c : Bool) (E : Error → Type 0) (m : M)
      → Ends {D = D} c (λ b. c ≡ true → b ≡ true) E (succeeds (publish m))
  unfolding succeeds succeeding
  Ends-succeeds-publish c E m = record {
    at = λ w q. elim (publish-cases c m w q) [
      | inl (w', e, h) ↦ rw e ((λ _. refl), h)
      | inr (w', e, n) ↦ rw e ((λ t. absurd (n t)), λ t. absurd (n t))
    ];
  }
