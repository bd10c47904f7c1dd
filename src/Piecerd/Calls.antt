-- ===== src/Piecerd/Calls.antt =====
-- What piecerd does, in whatever order: the messages about batches to prepare, the turns of its daemon,
-- and the passing of time between them.
use broker_core.Base.{ℕ, ◌+◌, String, List, [], ◌∷◌}
use broker_core.Effects.{World, Result, ok, err, panicked, done, ◌>>◌}
use broker_core.Effects.Triple.{Keeping, Post, Triple-bind, Triple-pure}
use broker_core.Brokerd.Types.{Cid}
use broker_core.Piecerd.Schema.{Db}
use broker_core.Piecerd.Store.{Message, Command}
use broker_core.Piecerd.Piecer
use broker_core.Piecerd.Piecer.{Env}
use broker_core.Piecerd.Told.{Told, prepare_next-Triple, ready_to_prepare-Triple}

pub data Step : Type 0 where
  ready_to_prepare : String → Cid → Step
  prepare_next : Step
  wait : ℕ → Step

unfoldable pub take : Env → Step → Command
unfolding done
take env (Step.ready_to_prepare i c) w = Piecer.ready_to_prepare i c w
take env Step.prepare_next w = (Piecer.prepare_next env >> done) w
take env (Step.wait n) w = done (record w { now = w.now + n })

unfoldable pub take_all : Env → List Step → World Db Message → World Db Message
take_all env [] w = w
take_all env (s ∷ ss) w = take_all env ss (take env s w).1

Post-Told :
    (env : Env) (r : Result (Unit {0}) × World Db Message)
    → Post (Keeping (Told env)) (Told env) r
    → Told env r.1.db r.1.sent
Post-Told env (ok _, w) h = h
Post-Told env (err e, w) h = h
Post-Told env (panicked, w) h = h

take-Told :
    (env : Env) (s : Step) (w : World Db Message)
    → Told env w.db w.sent
    → Told env (take env s w).1.db (take env s w).1.sent
unfolding take
take-Told env (Step.ready_to_prepare i c) w h =
    Post-Told env (Piecer.ready_to_prepare i c w) ((ready_to_prepare-Triple env i c).at w h)
take-Told env Step.prepare_next w h = Post-Told env ((Piecer.prepare_next env >> done) w) (
    (Triple-bind (Told env) (Keeping (Told env)) (Keeping (Told env)) (Told env) _ _
        (prepare_next-Triple env) (λ _. Triple-pure (Told env) _ (Told env) tt (λ _ _ h. h))).at
      w h)
take-Told env (Step.wait n) w h = h

-- After any steps of piecerd, with any failures of its statements and publications, every batch that it
-- is done with has been reported as prepared, and no report has a piece smaller than the size to pad to,
-- if this holds before them.
pub take_all-Told :
    (env : Env) (ss : List Step) (w : World Db Message)
    → Told env w.db w.sent
    → Told env (take_all env ss w).db (take_all env ss w).sent
unfolding take_all
take_all-Told env [] w h = h
take_all-Told env (s ∷ ss) w h = take_all-Told env ss (take env s w).1 (take-Told env s w h)
