-- ===== src/Effects/SentTx.antt =====
-- Transactions and conditions on what has been sent, which a rollback does not undo.
use broker_core.Base.{Option, none, some, List}
use broker_core.Effects.{
  Result, ok, err, panicked, World, Exec, attempt, with_tx, with_tx_by, own_tx, begin_tx, closing,
  close_tx, commit_with, settle, rollback, query,
}
use broker_core.Effects.Triple.{Triple, Keeping, Post, Triple-attempt, Triple-bind, Triple-lift}

-- The condition, whatever the database.
abbrev pub Sent : {D M : Type 0} → (List M → Type 0) → D → List M → Type 0
Sent P d s = P s

module _ {D M A : Type 0} (P : List M → Type 0) where
  Post-settle :
      (d : D) (a : A) (r : Result (Unit {0}) × World D M)
      → Post (Keeping (Sent P)) (Sent P) r
      → Post (Keeping (Sent P)) (Sent P) (settle d a r)
  unfolding settle rollback
  Post-settle d a (ok _, w) h = h
  Post-settle d a (err e, w) h = h
  Post-settle d a (panicked, w) h = h

  Post-close_tx :
      (d : D) (r : Result A × World D M)
      → Post (Keeping (Sent P)) (Sent P) r
      → Post (Keeping (Sent P)) (Sent P) (close_tx d r.0 r.1)
  unfolding close_tx commit_with rollback
  Post-close_tx d (ok a, w) h =
      Post-settle d a (attempt w) ((Triple-attempt (Sent P) (Sent P) (λ d s h. h)).at w h)
  Post-close_tx d (err e, w) h = h
  Post-close_tx d (panicked, w) h = h

  Post-begin_tx :
      (run : Exec D M A) (r : Result (Unit {0}) × World D M)
      → Post (Keeping (Sent P)) (Sent P) r
      → Triple (Sent P) (Keeping (Sent P)) (Sent P) run
      → Post (Keeping (Sent P)) (Sent P) (begin_tx run r)
  unfolding begin_tx
  Post-begin_tx run (ok _, w) h t = t.at (record w { snapshot = some w.db }) h
  Post-begin_tx run (err e, w) h t = h
  Post-begin_tx run (panicked, w) h t = h

  closing-Triple :
      (body : Exec D M A)
      → Triple (Sent P) (Keeping (Sent P)) (Sent P) body
      → Triple (Sent P) (Keeping (Sent P)) (Sent P) (closing body)
  unfolding closing
  closing-Triple body t = record { at = λ w h. Post-close_tx w.db (body w) (t.at w h) }

  Post-with_tx_by :
      (s : Option D) (body : Exec D M A) (w : World D M)
      → Triple (Sent P) (Keeping (Sent P)) (Sent P) body
      → (Sent P) w.db w.sent
      → Post (Keeping (Sent P)) (Sent P) (with_tx_by s body w)
  unfolding with_tx_by own_tx
  Post-with_tx_by none body w t h =
      Post-begin_tx (closing body) (attempt w)
        ((Triple-attempt (Sent P) (Sent P) (λ d s h. h)).at w h) (closing-Triple body t)
  Post-with_tx_by (some d) body w t h = t.at w h

  pub Triple-with_tx :
      (body : Exec D M A)
      → Triple (Sent P) (Keeping (Sent P)) (Sent P) body
      → Triple (Sent P) (Keeping (Sent P)) (Sent P) (with_tx body)
  unfolding with_tx
  Triple-with_tx body t = record { at = λ w h. Post-with_tx_by w.snapshot body w t h }

  pub Triple-query : (f : D → Result A) → Triple (Sent P) (Keeping (Sent P)) (Sent P) (query f)
  unfolding query
  Triple-query f =
      Triple-bind (Sent P) (Keeping (Sent P)) (Keeping (Sent P)) (Sent P) _ _
        (Triple-attempt (Sent P) (Sent P) (λ d s h. h))
        λ _. record {
          at = λ w h.
              (Triple-lift (Sent P) (Keeping (Sent P)) (Sent P) (f w.db) (λ _ _ _ _ h. h)
                  (λ _ _ h. h)).at
                w h;
        }
