-- ===== src/Packerd/Kept.antt =====
-- packerd's operations keep the sizes of the batches right.
use broker_core.Base.{
  ℕ, ◌+◌, String, ◌≡◌, ◌≢◌, refl, ◌∙◌, false, Option, none, some, List, [], ◌∷◌, ◌++◌, arith, inl,
  inr, Bool-cases, subst,
}
use broker_core.Base.Rows.{exists_row}
use broker_core.Effects.{World, ok, panicked, ◌>>=◌}
use broker_core.Effects.Keeps.{
  After, After-map, Keeps, >>=-After, query-After, new_id-After, gets-After, pure-After,
  insert-After, exec-After, Keeps-if, Keeps-exec, Keeps-done, Keeps-bind, Keeps-require, Keeps-lift,
  Keeps-exec_returning, Keeps-pure, Keeps-ok_query,
}
use broker_core.Effects.Stays.{
  Stays, Stays-bind, Stays-gets, Stays-with_tx, Stays-deferred_tx, Stays-lift, Stays-require,
  Stays-done, Stays-pure, Stays-publish, Stays-logged,
}
use broker_core.Effects.Tx.{Keeps-with_tx}
use broker_core.Packerd.Schema
use broker_core.Packerd.Schema.{Status, BatchRow, RequestRow, Db, open_batch, is_batch, closes}
use broker_core.Packerd.Store
use broker_core.Packerd.Packer
use broker_core.Packerd.Packer.{Packer as Config, ReadyToBatchData}
use broker_core.Packerd.Store.{Env, Message, exists_if_taken, stuck}
use broker_core.Packerd.Tally.{
  IsTallied, Chosen, found_Chosen, opened_IsTallied, opened_Chosen, added_IsTallied,
  updated_IsTallied,
}

created :
    (id origin : String) (now : ℕ) (d d' : Db)
    → Schema.create_open_batch id origin now d ≡ ok d'
    → (exists_row (is_batch id) d.batches ≡ false)
      × (d' ≡ record d { batches = d.batches ++ open_batch id origin now ∷ [] })
unfolding Schema.create_open_batch
created id origin now d d' e = elim (Bool-cases (exists_row (is_batch id) d.batches)) [
  | inl p ↦ cc (rw p at e)
  | inr p ↦ (p, ground (arith, p))
]

create_open_batch_total :
    (id origin : String) (now : ℕ) (d : Db) → Schema.create_open_batch id origin now d ≢ panicked
unfolding Schema.create_open_batch
create_open_batch_total id origin now d e = ground arith

add_request_total :
    (r : RequestRow) (d : Db) → exists_if_taken (Schema.add_storage_request_in_batch r d) ≢ panicked
unfolding Schema.add_storage_request_in_batch
add_request_total r d e = ground arith

added :
    (r : RequestRow) (d d' : Db)
    → exists_if_taken (Schema.add_storage_request_in_batch r d) ≡ ok d'
    → d' ≡ record d { requests = d.requests ++ r ∷ [] }
unfolding Schema.add_storage_request_in_batch
added r d d' e = ground arith

moved :
    (id : String) (s : Status) (n now : ℕ) (d : Db)
    → IsTallied d
    → IsTallied (Schema.move_batch_to_status id s n now d)
unfolding Schema.move_batch_to_status
moved id s n now d h = updated_IsTallied _ _ d (λ b. refl) (λ b. refl) h

ok_inj : {A : Type 0} (x y : A) → ok x ≡ ok y → x ≡ y
ok_inj x y e = cc

module _ (env : Env) where
  add_to-After :
      (r : RequestRow) (ob : BatchRow) (w : World Db Message)
      → r.batch_id ≡ ob.batch_id
      → Chosen ob w.db
      → IsTallied w.db
      → After (λ w'. IsTallied w'.db) (λ _ w'. IsTallied w'.db) (Store.add_to env r ob w)
  unfolding Store.add_to
  add_to-After r ob w e c h = >>=-After _ _ _ _ w (
      gets-After _ _ _ w (
        >>=-After _ _ _ _ w (
          insert-After _ _ _ w (add_request_total r w.db) (λ d fs q. >>=-After _ _ _ _ _ (
            exec-After _ _ _ _ (λ gs.
              (Keeps-if _ _ _ (Keeps-exec _ (moved _ _ _ _)) Keeps-done).at _ (grown d q)))))))
    where
      grown :
          (d : Db)
          → exists_if_taken (Schema.add_storage_request_in_batch r w.db) ≡ ok d
          → IsTallied (Schema.update_batch_size ob.batch_id (ob.total_size + r.size) w.now d)
      grown d q =
          subst (λ i. IsTallied (Schema.update_batch_size i (ob.total_size + r.size) w.now d)) e
            (rw (added r w.db d q)
              (added_IsTallied r ob.total_size w.now w.db (rw e c.0) (rw e c.1) h))

  create_open-After :
      (origin : String) (w : World Db Message)
      → IsTallied w.db
      → After
          (λ w'. IsTallied w'.db)
          (λ ob w'. Chosen ob w'.db × IsTallied w'.db)
          (Store.create_open env origin w)
  unfolding Store.create_open
  create_open-After origin w h = >>=-After _ _ _ _ w (
      new_id-After _ _ _ w (λ fs. >>=-After _ _ _ _ _ (
        gets-After _ _ _ _ (
          >>=-After _ _ _ _ _ (
            insert-After _ _ _ _ (create_open_batch_total _ origin w.now w.db)
              (λ d gs q. pure-After _ _ _ _ (opened d q)))))))
    where
      opened :
          (d : Db)
          → Schema.create_open_batch (env.id w.drawn) origin w.now w.db ≡ ok d
          → Chosen (open_batch (env.id w.drawn) origin w.now) d × IsTallied d
      opened d q =
          let (n, e) = created (env.id w.drawn) origin w.now w.db d q in
          rw e (
            opened_Chosen (env.id w.drawn) origin w.now w.db n h,
            opened_IsTallied (env.id w.drawn) origin w.now w.db n h,
          )

  or_create-After :
      (origin : String) (o : Option BatchRow) (w : World Db Message)
      → IsTallied w.db
      → ((b : BatchRow) → o ≡ some b → Chosen b w.db)
      → After
          (λ w'. IsTallied w'.db)
          (λ ob w'. Chosen ob w'.db × IsTallied w'.db)
          (Store.or_create env origin o w)
  unfolding Store.or_create
  or_create-After origin none w h k = create_open-After origin w h
  or_create-After origin (some b) w h k = pure-After _ _ b w (k b refl, h)

  -- A request is placed in the batch that was found, or in a new one.
  placed-After :
      (req : BatchRow → RequestRow) (origin : String) (o : Option BatchRow) (w : World Db Message)
      → ((ob : BatchRow) → (req ob).batch_id ≡ ob.batch_id)
      → IsTallied w.db
      → ((b : BatchRow) → o ≡ some b → Chosen b w.db)
      → After
          (λ w'. IsTallied w'.db)
          (λ _ w'. IsTallied w'.db)
          ((Store.or_create env origin o >>= λ ob. Store.add_to env (req ob) ob) w)
  placed-After req origin o w e h k =
      >>=-After (λ w'. IsTallied w'.db) (λ _ w'. IsTallied w'.db) (Store.or_create env origin o) _ w
        (After-map (λ w'. IsTallied w'.db) (λ ob w'. Chosen ob w'.db × IsTallied w'.db)
          (λ ob w'.
            After (λ w₂. IsTallied w₂.db) (λ _ w₂. IsTallied w₂.db)
              (Store.add_to env (req ob) ob w'))
          (Store.or_create env origin o w) (λ ob w' p. add_to-After (req ob) ob w' (e ob) p.0 p.1)
          (or_create-After origin o w h k))

  add_in_tx-Keeps :
      (op sr c : String) (size : ℕ) (origin : String)
      → Keeps IsTallied (Store.add_in_tx env op sr c size origin)
  unfolding Store.add_in_tx
  add_in_tx-Keeps op sr c size origin = record {
    at = λ w h.
        >>=-After (λ w'. IsTallied w'.db) (λ _ w'. IsTallied w'.db) _ _ w
          (query-After (λ w'. IsTallied w'.db) _ _ w (λ e. cc)
            (λ o fs q.
              placed-After
                (λ ob. record {
                  operation_id = op;
                  storage_request_id = sr;
                  data_cid = env.cid_string c;
                  batch_id = ob.batch_id;
                  size = size;
                })
                origin o (record w { faults = fs }) (λ ob. refl) h
                (λ b e. found_Chosen env.batch_max_size size origin w.db b (ok_inj _ o q ∙ e) h)));
  }

  add-Keeps :
      (op sr c : String) (size : ℕ) (origin : String)
      → Keeps IsTallied (Store.add_storage_request_to_open_batch env op sr c size origin)
  unfolding Store.add_storage_request_to_open_batch
  add-Keeps op sr c size origin = Keeps-bind _ _ (Keeps-require _ _) (λ _.
      Keeps-bind _ _ (Keeps-require _ _) (λ _. Keeps-bind _ _ (Keeps-require _ _) (λ _.
        Keeps-bind _ _ (Keeps-require _ _)
          (λ _. Keeps-with_tx IsTallied _ (add_in_tx-Keeps op sr c size origin)))))

  add_all-Keeps :
      (op : String) (xs : List ReadyToBatchData) → Keeps IsTallied (Packer.add_all env op xs)
  unfolding Packer.add_all
  add_all-Keeps op [] = Keeps-done
  add_all-Keeps op (x ∷ xs) =
      Keeps-bind _ _ (Keeps-lift _)
        (λ n. Keeps-bind _ _ (add-Keeps op _ _ n _) (λ _. add_all-Keeps op xs))

  pub ready_to_batch-Stays :
      (op : String) (xs : List ReadyToBatchData) → Stays IsTallied (Packer.ready_to_batch env op xs)
  unfolding Packer.ready_to_batch
  ready_to_batch-Stays op xs = Stays-deferred_tx _ (add_all-Keeps op xs)

  pub time_based_batch_close-Stays : Stays IsTallied (Store.time_based_batch_close env)
  unfolding Store.time_based_batch_close Schema.time_based_batch_closing
  time_based_batch_close-Stays = Stays-bind _ _ (Stays-gets _) (λ now.
      Stays-with_tx _ (Keeps-exec _ (λ d h. updated_IsTallied _ _ d (λ b. refl) (λ b. refl) h)))

pub move_to_status-Stays :
    (id : String) (delay : ℕ) (s : Status) → Stays IsTallied (Store.move_to_status id delay s)
unfolding Store.move_to_status
move_to_status-Stays id delay s = Stays-bind _ _ (Stays-gets _) (λ now. Stays-with_tx _ (
    Keeps-bind _ _ (Keeps-exec_returning _ (λ d h. moved id s (now + delay) now d h))
      (λ n. Keeps-require _ _)))

leased : (now : ℕ) (d : Db) → IsTallied d → IsTallied (Schema.get_next_ready_batch stuck now d).1
unfolding Schema.get_next_ready_batch
leased now d h = leased_by now (Schema.least (λ b. b.ready_at) _) d h
  where
    leased_by :
        (now : ℕ) (o : Option BatchRow) (d : Db) → IsTallied d → IsTallied (Schema.lease now o d)
    leased_by now none d h = h
    leased_by now (some b) d h = updated_IsTallied _ _ d (λ x. refl) (λ x. refl) h

with_requests-Keeps : (o : Option BatchRow) → Keeps IsTallied (Store.with_requests o)
unfolding Store.with_requests
with_requests-Keeps none = Keeps-pure none
with_requests-Keeps (some b) = Keeps-bind _ _ (Keeps-ok_query _) (λ srs. Keeps-pure _)

pub get_next_ready_batch-Stays : Stays IsTallied Store.get_next_ready_batch
unfolding Store.get_next_ready_batch
get_next_ready_batch-Stays = Stays-bind _ _ (Stays-gets _) (λ now.
    Stays-with_tx _
      (Keeps-bind _ _ (Keeps-exec_returning _ (λ d h. leased now d h)) with_requests-Keeps))

check_ids-Stays : (is : List String) → Stays IsTallied (Packer.check_ids is)
unfolding Packer.check_ids
check_ids-Stays [] = Stays-done
check_ids-Stays (i ∷ is) = Stays-bind _ _ (Stays-require _ _) (λ _. check_ids-Stays is)

module _ (p : Config) where
  publish_new_batch_created-Stays :
      (m : Message) → Stays IsTallied (Packer.publish_new_batch_created p m)
  unfolding Packer.publish_new_batch_created
  publish_new_batch_created-Stays m =
      search (Stays-bind, Stays-require, check_ids-Stays, Stays-publish) depth 12

  pack_next-Stays :
      (o : Option (BatchRow × List RequestRow)) → Stays IsTallied (Packer.pack_next p o)
  unfolding Packer.pack_next
  pack_next-Stays none = Stays-pure 0
  pack_next-Stays (some (b, srs)) = Stays-bind _ _ (Stays-lift _) (λ dag.
      Stays-bind _ _ (move_to_status-Stays _ _ _)
        (λ _. Stays-bind _ _ (publish_new_batch_created-Stays _) (λ _. Stays-pure _)))

  pub pack-Stays : Stays IsTallied (Packer.pack p)
  unfolding Packer.pack
  pack-Stays =
      Stays-bind _ _ (Stays-logged _ (time_based_batch_close-Stays p.store))
        (λ _. Stays-bind _ _ get_next_ready_batch-Stays pack_next-Stays)
