-- ===== src/Msgbroker/Prepared.antt =====
-- From piecerd to brokerd: the receiver of new-batch-prepared accepts all that piecerd reports.
use broker_core.Base.{Bool, true, false, Option, none, some, List, [], ◌∷◌, All, String}
use broker_core.Effects.{World, Result, ok, err, panicked, done, ◌>>◌}
use broker_core.Effects.Gives.{
  Gives, Any, Gives-pure, Gives-bind, Gives-map, Gives-gets, Gives-require, Gives-lift,
  Gives-insert, Gives-exec_returning, Gives-logged, Gives-succeeds, Gives-caught, Gives-if,
}
use broker_core.Brokerd.Types.{Cid}
use broker_core.Piecerd.Schema.{Db, Row, Status}
use broker_core.Piecerd.Store
use broker_core.Piecerd.Store.{Message}
use broker_core.Piecerd.Piecer
use broker_core.Piecerd.Piecer.{Env}
use broker_core.Piecerd.Calls.{Step, take, take_all}
use broker_core.Msgbroker.Receipt.{Parsers}
use broker_core.Msgbroker.Accepted.{
  Outcome-sent, CastsDefined, PreparedAccepted, Gives-after_check, publish_new_batch_prepared-Gives,
}

module _ (p : Parsers) (casts : CastsDefined p) (env : Env) where
  abbrev P : Message → Type 0
  P = PreparedAccepted p casts

  create-Gives : (i : String) (c : Cid) → Gives P Any (Store.create_unprepared_batch i c)
  unfolding Store.create_unprepared_batch
  create-Gives i c = Gives-after_check P _ _ _ λ _.
      Gives-after_check P _ _ _
        λ _. Gives-bind P Any Any _ _ (Gives-gets P Any _ (λ _. tt)) λ now _. Gives-insert P _

  ready_to_prepare-Gives : (i : String) (c : Cid) → Gives P Any (Piecer.ready_to_prepare i c)
  unfolding Piecer.ready_to_prepare
  ready_to_prepare-Gives i c =
      Gives-after_check P _ _ _ λ _. Gives-after_check P _ _ _ λ _. create-Gives i c

  move-Gives : (i : String) (delay : _) (s : Status) → Gives P Any (Store.move_to_status i delay s)
  unfolding Store.move_to_status
  move-Gives i delay s = Gives-bind P Any Any _ _ (Gives-gets P Any _ (λ _. tt)) λ now _.
      Gives-bind P Any Any _ _ (Gives-exec_returning P _)
        λ count _. Gives-map P _ Any _ (λ _ _ _ _. tt) (Gives-require P _ _)

  calculate-Gives : (c : Cid) → Gives P Any (Piecer.calculate env c)
  unfolding Piecer.calculate
  calculate-Gives c = Gives-bind P Any Any _ _ (Gives-lift P Any _ (λ _ _. tt)) λ raw _.
      Gives-bind P Any Any _ _ (Gives-lift P Any _ (λ _ _. tt)) λ padded _.
        Gives-bind P Any Any _ _ (Gives-lift P Any _ (λ _ _. tt)) λ c _. Gives-pure P Any _ tt

  prepare-Gives : (r : Row) → Gives P Any (Piecer.prepare env r)
  unfolding Piecer.prepare
  prepare-Gives r =
      Gives-bind P Any Any _ _ (calculate-Gives r.data_cid)
        λ dpr _. publish_new_batch_prepared-Gives p casts _

  retry_later-Gives : (r : Row) → Gives P Any (Piecer.retry_later env r)
  unfolding Piecer.retry_later
  retry_later-Gives r =
      Gives-bind P Any Any _ _ (Gives-logged P _ (move-Gives _ _ _)) λ _ _. Gives-pure P Any _ tt

  finish-Gives : (r : Row) (b : Bool) → Gives P Any (Piecer.finish env r b)
  unfolding Piecer.finish
  finish-Gives r false = retry_later-Gives r
  finish-Gives r true =
      Gives-bind P Any Any _ _ (Gives-succeeds P _ (move-Gives _ _ _))
        λ moved _. Gives-if P Any moved _ _ (λ _. Gives-pure P Any _ tt) (λ _. retry_later-Gives r)

  prepare_row-Gives : (x : Result (Option Row)) → Gives P Any (Piecer.prepare_row env x)
  unfolding Piecer.prepare_row
  prepare_row-Gives (ok (some r)) =
      Gives-bind P Any Any _ _ (Gives-succeeds P _ (prepare-Gives r)) λ b _. finish-Gives r b
  prepare_row-Gives (ok none) = Gives-pure P Any _ tt
  prepare_row-Gives (err e) = Gives-pure P Any _ tt
  prepare_row-Gives panicked = Gives-pure P Any _ tt

  decoded-Gives : (is_cid : String → Bool) (o : Option Row) → Gives P Any (Store.decoded is_cid o)
  unfolding Store.decoded
  decoded-Gives is_cid none = Gives-pure P Any _ tt
  decoded-Gives is_cid (some r) =
      Gives-bind P _ Any _ _ (Gives-require P _ _) λ _ _. Gives-pure P Any _ tt

  get_next-Gives : (is_cid : String → Bool) → Gives P Any (Store.get_next_pending is_cid)
  unfolding Store.get_next_pending
  get_next-Gives is_cid = Gives-bind P Any Any _ _ (Gives-gets P Any _ (λ _. tt)) λ now _.
      Gives-bind P Any Any _ _ (Gives-exec_returning P _) λ next _. decoded-Gives is_cid next

  prepare_next-Gives : Gives P Any (Piecer.prepare_next env)
  unfolding Piecer.prepare_next
  prepare_next-Gives =
      Gives-bind P _ Any _ _ (Gives-caught P Any _ (get_next-Gives env.is_cid))
        λ x _. prepare_row-Gives x

  take-sent : (s : Step) (w : World Db Message) → All P w.sent → All P (take env s w).1.sent
  unfolding take done
  take-sent (Step.ready_to_prepare i c) w h =
      Outcome-sent P (Piecer.ready_to_prepare i c w) ((ready_to_prepare-Gives i c).at w h)
  take-sent Step.prepare_next w h =
      Outcome-sent P ((Piecer.prepare_next env >> done) w)
        ((Gives-bind P Any Any _ _ prepare_next-Gives (λ _ _. Gives-pure P Any _ tt)).at w h)
  take-sent (Step.wait n) w h = h

-- Whatever steps piecerd takes, with any failures of its statements and publications, the receiver of the
-- topic new-batch-prepared accepts each of its reports and calls the listener with the batch id, the
-- piece cid and the piece size that piecerd has sent, if this holds of the reports before the steps. The
-- bytes of a defined cid are taken to be accepted by cid.Cast.
pub take_all-PreparedAccepted :
    (p : Parsers) (casts : CastsDefined p) (env : Env) (ss : List Step) (w : World Db Message)
    → All (PreparedAccepted p casts) w.sent
    → All (PreparedAccepted p casts) (take_all env ss w).sent
unfolding take_all
take_all-PreparedAccepted p casts env [] w h = h
take_all-PreparedAccepted p casts env (s ∷ ss) w h =
    take_all-PreparedAccepted p casts env ss (take env s w).1 (take-sent p casts env s w h)
