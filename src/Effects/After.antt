-- ===== src/Effects/After.antt =====
-- Reasoning about actions: what holds of the world after them.
use broker_core.Base.{
  ℕ, String, ◌+◌, ◌≡◌, refl, Bool, true, false, List, [], ◌∷◌, ◌++◌, if◌then◌else◌, ◌≢◌,
}
use broker_core.Effects.{
  Result, ok, err, panicked, World, Exec, pure, gets, continue, ◌>>=◌, attempt, exec,
  exec_returning, query, insert, publish, new_id, attempt_by, insert_to,
}

module _ {D M A : Type 0} where
  -- After an action that returns, `Q` holds of its result and the world; after a panic, `P` holds of
  -- the world. Nothing is said after an error, which rolls the transaction back.
  abbrev pub After {κ} :
      (World D M → Type κ) → (A → World D M → Type κ) → Result A × World D M → Type κ
  After P Q (ok a, w) = Q a w
  After P Q (err e, w) = Unit
  After P Q (panicked, w) = P w

  pub After-map {κ} :
      (P : World D M → Type κ) (Q Q' : A → World D M → Type κ) (r : Result A × World D M)
      → ((a : A) (w : World D M) → Q a w → Q' a w)
      → After P Q r
      → After P Q' r
  After-map P Q Q' (ok a, w) f h = f a w h
  After-map P Q Q' (err e, w) f h = tt
  After-map P Q Q' (panicked, w) f h = h

module _ {D M A B : Type 0} where
  continue-After {κ} :
      (P : World D M → Type κ) (Q : B → World D M → Type κ) (f : A → Exec D M B)
      (r : Result A × World D M)
      → After P (λ a w'. After P Q (f a w')) r
      → After P Q (continue r.0 f r.1)
  unfolding continue
  continue-After P Q f (ok a, w) h = h
  continue-After P Q f (err e, w) h = tt
  continue-After P Q f (panicked, w) h = h

  -- The rule of a sequence.
  pub >>=-After {κ} :
      (P : World D M → Type κ) (Q : B → World D M → Type κ) (m : Exec D M A) (f : A → Exec D M B)
      (w : World D M)
      → After P (λ a w'. After P Q (f a w')) (m w)
      → After P Q ((m >>= f) w)
  unfolding ◌>>=◌
  >>=-After P Q m f w h = continue-After P Q f (m w) h

-- The rules of the primitive actions: `Q` is asked of the world that each leaves, whatever is left of
-- the faults.
module _ {D M : Type 0} where
  attempt_by-After {κ} :
      (P : World D M → Type κ) (Q : Unit {0} → World D M → Type κ) (w : World D M) (gs : List Bool)
      → gs ≡ w.faults
      → ((fs : List Bool) → Q tt (record w { faults = fs }))
      → After P Q (attempt_by gs w)
  unfolding attempt_by
  attempt_by-After P Q w [] e h = h w.faults
  attempt_by-After P Q w (true ∷ fs) e h = tt
  attempt_by-After P Q w (false ∷ fs) e h = h fs

  pub attempt-After {κ} :
      (P : World D M → Type κ) (Q : Unit {0} → World D M → Type κ) (w : World D M)
      → ((fs : List Bool) → Q tt (record w { faults = fs }))
      → After P Q (attempt w)
  unfolding attempt
  attempt-After P Q w h = attempt_by-After P Q w w.faults refl h

  pub exec-After {κ} :
      (P : World D M → Type κ) (Q : Unit {0} → World D M → Type κ) (f : D → D) (w : World D M)
      → ((fs : List Bool) → Q tt (record w { db = f w.db; faults = fs }))
      → After P Q (exec f w)
  unfolding exec
  exec-After P Q f w h = >>=-After P Q attempt _ w (attempt-After P _ w h)

  pub publish-After {κ} :
      (P : World D M → Type κ) (Q : Unit {0} → World D M → Type κ) (m : M) (w : World D M)
      → ((fs : List Bool) → Q tt (record w { sent = w.sent ++ m ∷ []; faults = fs }))
      → After P Q (publish m w)
  unfolding publish
  publish-After P Q m w h = >>=-After P Q attempt _ w (attempt-After P _ w h)

  pub new_id-After {κ} :
      (P : World D M → Type κ) (Q : String → World D M → Type κ) (id : ℕ → String) (w : World D M)
      → ((fs : List Bool) → Q (id w.drawn) (record w { drawn = w.drawn + 1; faults = fs }))
      → After P Q (new_id id w)
  unfolding new_id
  new_id-After P Q id w h = >>=-After P Q attempt _ w (attempt-After P _ w h)

  insert_to-After {κ} :
      (P : World D M → Type κ) (Q : Unit {0} → World D M → Type κ) (r : Result D) (w : World D M)
      → r ≢ panicked
      → ((d : D) → r ≡ ok d → Q tt (record w { db = d }))
      → After P Q (insert_to r w)
  unfolding insert_to
  insert_to-After P Q (ok d) w n h = h d refl
  insert_to-After P Q (err e) w n h = tt
  insert_to-After P Q panicked w n h = absurd (n refl)

  pub insert-After {κ} :
      (P : World D M → Type κ) (Q : Unit {0} → World D M → Type κ) (f : D → Result D)
      (w : World D M)
      → f w.db ≢ panicked
      → ((d : D) (fs : List Bool) → f w.db ≡ ok d → Q tt (record w { db = d; faults = fs }))
      → After P Q (insert f w)
  unfolding insert
  insert-After P Q f w n h = >>=-After P Q attempt _ w (
      attempt-After P _ w
        (λ fs. insert_to-After P Q (f w.db) (record w { faults = fs }) n (λ d e. h d fs e)))

module _ {D M A : Type 0} where
  pub gets-After {κ} :
      (P : World D M → Type κ) (Q : A → World D M → Type κ) (f : World D M → A) (w : World D M)
      → Q (f w) w
      → After P Q (gets f w)
  unfolding gets
  gets-After P Q f w h = h

  pub pure-After {κ} :
      (P : World D M → Type κ) (Q : A → World D M → Type κ) (a : A) (w : World D M)
      → Q a w
      → After P Q (pure a w)
  unfolding pure
  pure-After P Q a w h = h

  lift-After {κ} :
      (P : World D M → Type κ) (Q : A → World D M → Type κ) (r : Result A) (w : World D M)
      → r ≢ panicked
      → ((a : A) → r ≡ ok a → Q a w)
      → After P Q (r, w)
  lift-After P Q (ok a) w n h = h a refl
  lift-After P Q (err e) w n h = tt
  lift-After P Q panicked w n h = absurd (n refl)

  pub query-After {κ} :
      (P : World D M → Type κ) (Q : A → World D M → Type κ) (f : D → Result A) (w : World D M)
      → f w.db ≢ panicked
      → ((a : A) (fs : List Bool) → f w.db ≡ ok a → Q a (record w { faults = fs }))
      → After P Q (query f w)
  unfolding query
  query-After P Q f w n h = >>=-After P Q attempt _ w (
      attempt-After P _ w
        (λ fs. lift-After P Q (f w.db) (record w { faults = fs }) n (λ a e. h a fs e)))

  pub exec_returning-After {κ} :
      (P : World D M → Type κ) (Q : A → World D M → Type κ) (f : D → A × D) (w : World D M)
      → ((fs : List Bool) → Q (f w.db).0 (record w { db = (f w.db).1; faults = fs }))
      → After P Q (exec_returning f w)
  unfolding exec_returning
  exec_returning-After P Q f w h = >>=-After P Q attempt _ w (attempt-After P _ w h)

  pub if-After {κ} :
      (P : World D M → Type κ) (Q : A → World D M → Type κ) (b : Bool) (m n : Exec D M A)
      (w : World D M)
      → (b ≡ true → After P Q (m w))
      → (b ≡ false → After P Q (n w))
      → After P Q ((if b then m else n) w)
  if-After P Q true m n w hm hn = hm refl
  if-After P Q false m n w hm hn = hn refl
