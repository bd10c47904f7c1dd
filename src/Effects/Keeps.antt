-- ===== src/Effects/Keeps.antt =====
-- Invariants of the database that actions keep, and properties of what they return.
pub use broker_core.Effects.After.{
  After, After-map, >>=-After, attempt-After, exec-After, publish-After, new_id-After, insert-After,
  gets-After, pure-After, query-After, exec_returning-After, if-After,
}
use broker_core.Base.{ℕ, String, ◌≡◌, refl, Bool, true, false, if◌then◌else◌, ◌≢◌}
use broker_core.Effects.{
  Error, Result, ok, err, panicked, World, Exec, pure, raise, panic, gets, ◌>>=◌, ◌>>◌, done,
  require, lift, attempt, exec, exec_returning, query, insert, publish, new_id,
}

-- An invariant of the database: an action keeps it if the action returns or panics.
pub record Keeps {D M A : Type 0} (I : D → Type 0) (m : Exec D M A) : Type 0 where
  pub at : (w : World D M) → I w.db → After (λ w'. I w'.db) (λ _ w'. I w'.db) (m w)

module _ {D M A : Type 0} {I : D → Type 0} where
  pub Keeps-pure : (a : A) → Keeps {M = M} I (pure a)
  unfolding pure
  Keeps-pure a = record { at = λ w h. h }

  pub Keeps-raise : (e : Error) → Keeps {M = M} {A = A} I (raise e)
  unfolding raise
  Keeps-raise e = record { at = λ w h. tt }

  pub Keeps-panic : Keeps {M = M} {A = A} I panic
  unfolding panic
  Keeps-panic = record { at = λ w h. h }

  pub Keeps-gets : (f : World D M → A) → Keeps I (gets f)
  unfolding gets
  Keeps-gets f = record { at = λ w h. h }

  pub Keeps-query : (f : D → Result A) → ((d : D) → f d ≢ panicked) → Keeps {M = M} I (query f)
  Keeps-query f n = record {
    at = λ w h. query-After (λ w'. I w'.db) (λ _ w'. I w'.db) f w (n w.db) (λ a fs e. h);
  }

  pub Keeps-exec_returning :
      (f : D → A × D) → ((d : D) → I d → I (f d).1) → Keeps {M = M} I (exec_returning f)
  Keeps-exec_returning f k = record {
    at = λ w h. exec_returning-After (λ w'. I w'.db) (λ _ w'. I w'.db) f w (λ fs. k w.db h);
  }

  pub Keeps-if :
      (b : Bool) (m n : Exec D M A) → Keeps I m → Keeps I n → Keeps I (if b then m else n)
  Keeps-if true m n km kn = km
  Keeps-if false m n km kn = kn

module _ {D M : Type 0} {I : D → Type 0} where
  pub Keeps-attempt : Keeps {M = M} I attempt
  Keeps-attempt = record { at = λ w h. attempt-After (λ w'. I w'.db) (λ _ w'. I w'.db) w (λ fs. h) }

  pub Keeps-exec : (f : D → D) → ((d : D) → I d → I (f d)) → Keeps {M = M} I (exec f)
  Keeps-exec f k = record {
    at = λ w h. exec-After (λ w'. I w'.db) (λ _ w'. I w'.db) f w (λ fs. k w.db h);
  }

  pub Keeps-publish : (m : M) → Keeps I (publish m)
  Keeps-publish m = record {
    at = λ w h. publish-After (λ w'. I w'.db) (λ _ w'. I w'.db) m w (λ fs. h);
  }

  pub Keeps-new_id : (id : ℕ → String) → Keeps {M = M} I (new_id id)
  Keeps-new_id id = record {
    at = λ w h. new_id-After (λ w'. I w'.db) (λ _ w'. I w'.db) id w (λ fs. h);
  }

  pub Keeps-insert :
      (f : D → Result D)
      → ((d : D) → f d ≢ panicked)
      → ((d d' : D) → f d ≡ ok d' → I d → I d')
      → Keeps {M = M} I (insert f)
  Keeps-insert f n k = record {
    at =
        λ w h. insert-After (λ w'. I w'.db) (λ _ w'. I w'.db) f w (n w.db) (λ d fs e. k w.db d e h);
  }

module _ {D M A B : Type 0} {I : D → Type 0} where
  pub Keeps-bind :
      (m : Exec D M A) (f : A → Exec D M B)
      → Keeps I m
      → ((a : A) → Keeps I (f a))
      → Keeps I (m >>= f)
  Keeps-bind m f km kf = record {
    at = λ w h.
        >>=-After (λ w'. I w'.db) (λ _ w'. I w'.db) m f w
          (After-map (λ w'. I w'.db) (λ _ w'. I w'.db) _ (m w) (λ a w' h'. (kf a).at w' h')
            (km.at w h));
  }

pub Keeps-done : {D M : Type 0} {I : D → Type 0} → Keeps {M = M} I done
unfolding done
Keeps-done = Keeps-pure tt

pub Keeps-require :
    {D M : Type 0} {I : D → Type 0} (b : Bool) (e : Error) → Keeps {M = M} I (require b e)
unfolding require
Keeps-require true e = Keeps-pure tt
Keeps-require false e = Keeps-raise e

pub Keeps-ok_query :
    {D M A : Type 0} {I : D → Type 0} (f : D → A) → Keeps {M = M} I (query (λ d. ok (f d)))
Keeps-ok_query f = Keeps-query _ (λ d e. cc)

pub Keeps-lift : {D M A : Type 0} {I : D → Type 0} (r : Result A) → Keeps {M = M} I (lift r)
unfolding lift
Keeps-lift (ok a) = record { at = λ w h. h }
Keeps-lift (err e) = record { at = λ w h. tt }
Keeps-lift panicked = record { at = λ w h. h }

-- What an action returns has a property.
pub record Returns {D M A : Type 0} (R : A → Type 0) (m : Exec D M A) : Type 0 where
  pub at : (w : World D M) → After (λ _. Unit {0}) (λ a _. R a) (m w)

module _ {D M A B : Type 0} {I : D → Type 0} (R : A → Type 0) where
  both-After :
      (f : A → Exec D M B) (r : Result A × World D M)
      → After (λ _. Unit {0}) (λ a _. R a) r
      → After (λ w'. I w'.db) (λ _ w'. I w'.db) r
      → ((a : A) → R a → Keeps I (f a))
      → After (λ w'. I w'.db) (λ a w'. After (λ w₂. I w₂.db) (λ _ w₂. I w₂.db) (f a w')) r
  both-After f (ok a, w) hr hi k = (k a hr).at w hi
  both-After f (err e, w) hr hi k = tt
  both-After f (panicked, w) hr hi k = hi

  pub Keeps-bind_of :
      (m : Exec D M A) (f : A → Exec D M B)
      → Returns R m
      → Keeps I m
      → ((a : A) → R a → Keeps I (f a))
      → Keeps I (m >>= f)
  Keeps-bind_of m f hr km kf = record {
    at = λ w h.
        >>=-After (λ w'. I w'.db) (λ _ w'. I w'.db) m f w
          (both-After f (m w) (hr.at w) (km.at w h) kf);
  }

-- Two statements that keep the invariant together, though the first alone may not.
module _ {D M : Type 0} {I : D → Type 0} (f g : D → D) where
  module _ {A : Type 0} where
    pub Keeps-exec-exec_then :
        (m : Exec D M A)
        → ((d : D) → I d → I (g (f d)))
        → Keeps I m
        → Keeps I (exec f >> (exec g >> m))
    Keeps-exec-exec_then m k km = record {
      at = λ w h.
          >>=-After (λ w'. I w'.db) (λ _ w'. I w'.db) (exec f) _ w
            (exec-After (λ w'. I w'.db) _ f w
              (λ fs.
                >>=-After (λ w'. I w'.db) (λ _ w'. I w'.db) (exec g) _ _
                  (exec-After (λ w'. I w'.db) _ g _ (λ fs'. km.at _ (k w.db h)))));
    }

  pub Keeps-exec-exec : ((d : D) → I d → I (g (f d))) → Keeps {M = M} I (exec f >> exec g)
  Keeps-exec-exec k = record {
    at = λ w h.
        >>=-After (λ w'. I w'.db) (λ _ w'. I w'.db) (exec f) _ w
          (exec-After (λ w'. I w'.db) _ f w
            (λ fs. exec-After (λ w'. I w'.db) _ g _ (λ fs'. k w.db h)));
  }

-- The same for an insertion and an update that returns something.
module _ {D M A B : Type 0} {I : D → Type 0} where
  pub Keeps-insert_returning :
      (f : D → Result D) (g : D → A × D) (m : A → Exec D M B)
      → ((d : D) → f d ≢ panicked)
      → ((d d' : D) → f d ≡ ok d' → I d → I (g d').1)
      → ((a : A) → Keeps I (m a))
      → Keeps I (insert f >> (exec_returning g >>= m))
  Keeps-insert_returning f g m n k km = record {
    at = λ w h.
        >>=-After (λ w'. I w'.db) (λ _ w'. I w'.db) (insert f) _ w
          (insert-After (λ w'. I w'.db) _ f w (n w.db)
            (λ d fs e.
              >>=-After (λ w'. I w'.db) (λ _ w'. I w'.db) (exec_returning g) m _
                (exec_returning-After (λ w'. I w'.db) _ g _ (λ fs'. (km _).at _ (k w.db d e h)))));
  }

-- What a value without effects returns.
pub Returns-lift :
    {D M A : Type 0} (R : A → Type 0) (r : Result A)
    → ((a : A) → r ≡ ok a → R a)
    → Returns {D = D} {M = M} R (lift r)
unfolding lift
Returns-lift R (ok a) h = record { at = λ w. h a refl }
Returns-lift R (err e) h = record { at = λ w. tt }
Returns-lift R panicked h = record { at = λ w. tt }

pub ruleset keeps_rules = (
  Keeps-pure, Keeps-raise, Keeps-panic, Keeps-gets, Keeps-if, Keeps-bind, Keeps-new_id,
  Keeps-publish, Keeps-attempt,
)
