-- ===== src/Piecerd/Told.antt =====
-- Batches that piecerd is done with have been reported.
use broker_core.Base.{
  ℕ, ◌+◌, ◌≤◌, ◌≡◌, String, Bool, true, false, Option, none, some, List, [], ◌∷◌, ◌++◌, nat_eq,
  str_eq, eq_iff, eq_refl, if◌then◌else◌, All, All-map, All-append, Bool-cases, ltb-cases, inl, inr,
  arith, subst, sym,
}
use broker_core.Base.Rows.{exists_row, All-update_rows, exists_row-append, exists_row-append_self}
use broker_core.Effects.{Error, Result, ok, err, panicked, pure, require, ◌>>◌}
use broker_core.Effects.Triple.{
  Triple, Keeping, OnSuccess, Triple-map, Triple-pure, Triple-gets, Triple-lift, Triple-bind,
  Triple-require, Triple-publish, Triple-insert, Triple-exec_returning, Triple-logged,
  Triple-succeeds, Triple-caught,
}
use broker_core.Brokerd.Types.{Cid}
use broker_core.Piecerd.Schema
use broker_core.Piecerd.Schema.{Db, Row, Status, is_batch, pending_row}
use broker_core.Piecerd.Store
use broker_core.Piecerd.Store.{Message, Command, stuck}
use broker_core.Piecerd.Piecer.{
  Env, ready_to_prepare, prepare, calculate, padded, publish_new_batch_prepared, retry_later,
  finish, prepare_row, prepare_next, or_error,
}

abbrev pub is_finished : Status → Bool
is_finished Status.pending = false
is_finished Status.executing = false
is_finished Status.finished = true

-- The batch has been reported as prepared.
abbrev pub is_told : String → List Message → Bool
is_told i ms = exists_row (λ m. str_eq m.batch_id i) ms

-- Every finished batch has been reported, and no report has a piece smaller than the padding.
pub record Told (env : Env) (d : Db) (ms : List Message) : Type 0 where
  pub told : All (λ r. is_finished r.status ≡ true → is_told r.batch_id ms ≡ true) d.batches
  pub sizes : All (λ m. env.pad_to_size ≤ m.piece_size) ms

module _ (env : Env) where
  Told-create :
      (i : String) (c : Cid) (now : ℕ) (d d' : Db) (ms : List Message)
      → Store.exists_if_taken (Schema.create_unprepared_batch i c now d) ≡ ok d'
      → Told env d ms
      → Told env d' ms
  unfolding Schema.create_unprepared_batch
  Told-create i c now d d' ms e t = elim (Bool-cases (exists_row (is_batch i) d.batches)) [
    | inl x ↦ let k = rw x at e in cc
    | inr x ↦
        let q : record { batches = d.batches ++ pending_row i c now ∷ [] } ≡ d' =
          let k = rw x at e in cc in
        subst (λ y. Told env y ms) q
          (record {
            told = All-append _ d.batches (pending_row i c now ∷ []) t.told ((λ f. cc), tt);
            sizes = t.sizes;
          })
  ]

  Told-lease :
      (now : ℕ) (o : Option Row) (d : Db) (ms : List Message)
      → Told env d ms
      → Told env (Schema.lease now o d) ms
  Told-lease now none d ms t = t
  Told-lease now (some b) d ms t = record {
    told = All-update_rows _ _ _ _ d.batches (λ r _ _ f. cc) (λ r _ k. k) t.told;
    sizes = t.sizes;
  }

  Told-move :
      (i : String) (s : Status) (ready_at now : ℕ) (d : Db) (ms : List Message)
      → (is_finished s ≡ true → is_told i ms ≡ true)
      → Told env d ms
      → Told env (Schema.move_to_status i s ready_at now d).1 ms
  unfolding Schema.move_to_status
  Told-move i s ready_at now d ms k t = record {
    told =
        All-update_rows _ _ (is_batch i) _ d.batches
          (λ r e _ f.
            let q = (eq_iff r.batch_id i).0 e in subst (λ j. is_told j ms ≡ true) (sym q) (k f))
          (λ r _ h. h) t.told;
    sizes = t.sizes;
  }

  Told-publish :
      (m : Message) (d : Db) (ms : List Message)
      → env.pad_to_size ≤ m.piece_size
      → Told env d ms
      → Told env d (ms ++ m ∷ []) × (is_told m.batch_id (ms ++ m ∷ []) ≡ true)
  Told-publish m d ms p t = (
    record {
      told = All-map _ _ d.batches (λ r h f. exists_row-append _ ms (m ∷ []) (h f)) t.told;
      sizes = All-append _ ms (m ∷ []) t.sizes (p, tt);
    },
    exists_row-append_self _ ms m (eq_refl m.batch_id),
  )

  -- The batch, if it becomes finished, has been reported.
  abbrev MayMove : String → Status → Db → List Message → Type 0
  MayMove i s d ms = Told env d ms × (is_finished s ≡ true → is_told i ms ≡ true)

  move_to_status-Triple :
      (i : String) (delay : ℕ) (s : Status)
      → Triple (MayMove i s) (Keeping (Told env)) (Told env) (Store.move_to_status i delay s)
  unfolding Store.move_to_status
  move_to_status-Triple i delay s =
      Triple-bind (MayMove i s) (Keeping (MayMove i s)) (Keeping (Told env)) (Told env) _ _
        (Triple-gets (MayMove i s) (Keeping (MayMove i s)) (Told env) _ (λ _ _ _ h. h))
        λ now.
          Triple-bind (MayMove i s) (Keeping (Told env)) (Keeping (Told env)) (Told env) _ _
            (Triple-exec_returning (MayMove i s) (Told env) (λ _ _ h. h.0) (Keeping (Told env)) _
              (λ d ms h. Told-move i s (now + delay) now d ms h.1 h.0))
            λ count. check count _
    where
      check :
          (count : ℕ) (e : Error)
          → Triple {D = Db} (Told env) (Keeping (Told env)) (Told env) (require (nat_eq count 1) e)
      check count e =
          Triple-map (Told env) _ (Told env) _ _ (λ _ _ _ h. h.1)
            (Triple-require (Told env) (Told env) (λ _ _ h. h) (nat_eq count 1) e)

  abbrev LargeEnough : Option (String × ℕ) → Type 0
  LargeEnough none = Unit
  LargeEnough (some p) = env.pad_to_size ≤ p.1

  larger-LargeEnough :
      (o : Option String)
      → LargeEnough (elim o [ none ↦ none | some p ↦ some (p, env.pad_to_size) ])
  larger-LargeEnough none = tt
  larger-LargeEnough (some p) = omega arith

  padded-LargeEnough : (raw : String × ℕ) → LargeEnough (padded env raw)
  unfolding padded
  padded-LargeEnough (raw, size) = elim (ltb-cases size env.pad_to_size) [
    | inl (e, l) ↦ rw (padded, e) (larger-LargeEnough (env.pad raw size env.pad_to_size))
    | inr (e, l) ↦ rw (padded, e) l
  ]

  size_of :
      (o : Option (String × ℕ)) (p : String × ℕ)
      → LargeEnough o
      → or_error o ≡ ok p
      → env.pad_to_size ≤ p.1
  size_of none p l e = cc
  size_of (some q) p l e = let x : q ≡ p = cc in rw (← x) l

  calculate-Triple :
      (c : Cid)
      → Triple
          (Told env)
          (λ dpr d ms. (env.pad_to_size ≤ dpr.piece_size) × Told env d ms)
          (Told env)
          (calculate env c)
  unfolding calculate
  calculate-Triple c =
      Triple-bind (Told env) (Keeping (Told env)) _ (Told env) _ _
        (Triple-lift (Told env) _ (Told env) _ (λ _ _ _ _ h. h) (λ _ _ h. h))
        λ raw.
          Triple-bind (Told env) (λ p d ms. (env.pad_to_size ≤ p.1) × Told env d ms) _ (Told env) _
            _
            (Triple-lift (Told env) _ (Told env) _
              (λ p _ _ e h. (size_of _ p (padded-LargeEnough raw) e, h)) (λ _ _ h. h))
            λ p.
              Triple-bind (λ d ms. (env.pad_to_size ≤ p.1) × Told env d ms)
                (Keeping (λ d ms. (env.pad_to_size ≤ p.1) × Told env d ms)) _ (Told env) _ _
                (Triple-lift _ _ (Told env) _ (λ _ _ _ _ h. h) (λ _ _ h. h.1))
                λ piece_cid. Triple-pure _ _ (Told env) _ (λ _ _ h. h)

  publish-Triple :
      (m : Message)
      → Triple
          (λ d ms. (env.pad_to_size ≤ m.piece_size) × Told env d ms)
          (Keeping (λ d ms. Told env d ms × (is_told m.batch_id ms ≡ true)))
          (Told env)
          (publish_new_batch_prepared m)
  unfolding publish_new_batch_prepared
  publish-Triple m =
      Triple-bind (Fine m) _ (Keeping (AfterIt m)) (Told env) _ _
        (Triple-require (Fine m) (Told env) (λ _ _ h. h.1) _ _)
        λ _.
          Triple-bind _ (Keeping (Fine m)) (Keeping (AfterIt m)) (Told env) _ _
            (Triple-map _ _ (Told env) _ _ (λ _ _ _ h. h.1.1)
              (Triple-require _ (Told env) (λ _ _ h. h.1.1) _ _))
            λ _.
              Triple-bind (Fine m) _ (Keeping (AfterIt m)) (Told env) _ _
                (Triple-require (Fine m) (Told env) (λ _ _ h. h.1) _ _)
                λ _.
                  Triple-publish _ (Told env) (λ _ _ h. h.1.1) (Keeping (AfterIt m)) m
                    (λ d ms h. Told-publish m d ms h.1.0 h.1.1)
    where
      Fine : Message → Db → List Message → Type 0
      Fine m d ms = (env.pad_to_size ≤ m.piece_size) × Told env d ms

      AfterIt : Message → Db → List Message → Type 0
      AfterIt m d ms = Told env d ms × (is_told m.batch_id ms ≡ true)

  -- The batch has been reported.
  abbrev Reported : Row → Db → List Message → Type 0
  Reported r d ms = Told env d ms × (is_told r.batch_id ms ≡ true)

  prepare-Triple : (r : Row) → Triple (Told env) (Keeping (Reported r)) (Told env) (prepare env r)
  unfolding prepare
  prepare-Triple r =
      Triple-bind (Told env) _ (Keeping (Reported r)) (Told env) _ _ (calculate-Triple r.data_cid)
        λ dpr. publish-Triple _

  retry_later-Triple :
      (r : Row) → Triple (Told env) (Keeping (Told env)) (Told env) (retry_later env r)
  unfolding retry_later
  retry_later-Triple r =
      Triple-bind (Told env) (Keeping (Told env)) (Keeping (Told env)) (Told env) _ _
        (Triple-logged (Told env) (Told env) _
          (moves (move_to_status-Triple r.batch_id env.retry_delay Status.pending)))
        λ _. Triple-pure (Told env) _ (Told env) false (λ _ _ h. h)
    where
      moves :
          Triple
            (MayMove r.batch_id Status.pending)
            (Keeping (Told env))
            (Told env)
            (Store.move_to_status r.batch_id env.retry_delay Status.pending)
          → Triple
              (Told env)
              (Keeping (Told env))
              (Told env)
              (Store.move_to_status r.batch_id env.retry_delay Status.pending)
      moves t = record { at = λ w h. t.at w (h, λ e. cc) }

  finish-Triple :
      (r : Row) (b : Bool)
      → Triple
          (OnSuccess (Told env) (Told env) (Reported r) b)
          (Keeping (Told env))
          (Told env)
          (finish env r b)
  unfolding finish
  finish-Triple r false = retry_later-Triple r
  finish-Triple r true =
      Triple-bind (Reported r) (OnSuccess (Reported r) (Told env) (Told env)) (Keeping (Told env))
        (Told env) _ _
        (Triple-succeeds (Reported r) (Told env) (Told env) _
          (moves (move_to_status-Triple r.batch_id 0 Status.finished)))
        after_move
    where
      moves :
          Triple
            (MayMove r.batch_id Status.finished)
            (Keeping (Told env))
            (Told env)
            (Store.move_to_status r.batch_id 0 Status.finished)
          → Triple
              (Reported r)
              (Keeping (Told env))
              (Told env)
              (Store.move_to_status r.batch_id 0 Status.finished)
      moves t = record { at = λ w h. t.at w (h.0, λ _. h.1) }

      after_move :
          (moved : Bool)
          → Triple
              (OnSuccess (Reported r) (Told env) (Told env) moved)
              (Keeping (Told env))
              (Told env)
              (if moved then pure true else retry_later env r)
      after_move true = Triple-pure (Told env) _ (Told env) true (λ _ _ h. h)
      after_move false = retry_later-Triple r

  prepare_row-Triple :
      (x : Result (Option Row))
      → Triple (Told env) (Keeping (Told env)) (Told env) (prepare_row env x)
  unfolding prepare_row
  prepare_row-Triple (ok (some r)) =
      Triple-bind (Told env) (OnSuccess (Told env) (Told env) (Reported r)) (Keeping (Told env))
        (Told env) _ _ (Triple-succeeds (Told env) (Told env) (Reported r) _ (prepare-Triple r))
        (λ b. finish-Triple r b)
  prepare_row-Triple (ok none) = Triple-pure (Told env) _ (Told env) false (λ _ _ h. h)
  prepare_row-Triple (err e) = Triple-pure (Told env) _ (Told env) false (λ _ _ h. h)
  prepare_row-Triple panicked = Triple-pure (Told env) _ (Told env) false (λ _ _ h. h)

  decoded-Triple :
      (o : Option Row)
      → Triple (Told env) (Keeping (Told env)) (Told env) (Store.decoded env.is_cid o)
  unfolding Store.decoded
  decoded-Triple none = Triple-pure (Told env) _ (Told env) none (λ _ _ h. h)
  decoded-Triple (some r) =
      Triple-bind (Told env) _ (Keeping (Told env)) (Told env) _ _
        (Triple-require (Told env) (Told env) (λ _ _ h. h) _ _)
        λ _. Triple-pure _ _ (Told env) (some r) (λ _ _ h. h.1)

  get_next_pending-Triple :
      Triple (Told env) (Keeping (Told env)) (Told env) (Store.get_next_pending env.is_cid)
  unfolding Store.get_next_pending Schema.get_next_pending
  get_next_pending-Triple =
      Triple-bind (Told env) (Keeping (Told env)) (Keeping (Told env)) (Told env) _ _
        (Triple-gets (Told env) _ (Told env) _ (λ _ _ _ h. h))
        λ now.
          Triple-bind (Told env) (Keeping (Told env)) (Keeping (Told env)) (Told env) _ _
            (Triple-exec_returning (Told env) (Told env) (λ _ _ h. h) (Keeping (Told env)) _
              (λ d ms h. Told-lease now _ d ms h))
            λ o. decoded-Triple o

  pub prepare_next-Triple : Triple (Told env) (Keeping (Told env)) (Told env) (prepare_next env)
  unfolding prepare_next
  prepare_next-Triple =
      Triple-bind (Told env) (Keeping (Told env)) (Keeping (Told env)) (Told env) _ _
        (Triple-caught (Told env) (Told env) _ get_next_pending-Triple) λ x. prepare_row-Triple x

  pub ready_to_prepare-Triple :
      (i : String) (c : Cid)
      → Triple (Told env) (Keeping (Told env)) (Told env) (ready_to_prepare i c)
  unfolding ready_to_prepare Store.create_unprepared_batch
  ready_to_prepare-Triple i c = checked _ _ (
      checked _ _ (
        checked _ _ (
          checked _ _ (
            Triple-bind (Told env) (Keeping (Told env)) (Keeping (Told env)) (Told env) _ _
              (Triple-gets (Told env) _ (Told env) _ (λ _ _ _ h. h))
              λ now.
                Triple-insert (Told env) (Told env) (λ _ _ h. h) (Keeping (Told env)) _
                  (λ d d' ms e h. Told-create i c now d d' ms e h)))))
    where
      checked :
          (b : Bool) (e : Error) {m : Command}
          → Triple (Told env) (Keeping (Told env)) (Told env) m
          → Triple (Told env) (Keeping (Told env)) (Told env) (require b e >> m)
      checked b e {m} t =
          Triple-bind (Told env) (Keeping (Told env)) (Keeping (Told env)) (Told env) _ _
            (Triple-map (Told env) _ (Told env) _ _ (λ _ _ _ h. h.1)
              (Triple-require (Told env) (Told env) (λ _ _ h. h) b e))
            λ _. t
