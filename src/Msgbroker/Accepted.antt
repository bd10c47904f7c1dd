-- ===== src/Msgbroker/Accepted.antt =====
-- The receivers accept what the senders publish.
use broker_core.Base.{◌≡◌, refl, String, Bool, true, false, List, [], ◌∷◌, not, nat_eq, All}
use broker_core.Effects.{Error, World, Result, ok, err, panicked, Done, done, require, ◌>>◌}
use broker_core.Effects.Gives.{
  Gives, Outcome, Any, Gives-pure, Gives-bind, Gives-map, Gives-require, Gives-publish,
}
use broker_core.Brokerd.Types.{Cid, is_defined}
use broker_core.Brokerd.Env.{filled}
use broker_core.Packerd.Store.{Message as NewBatchCreated}
use broker_core.Packerd.Schema as PackerdSchema
use broker_core.Packerd.Packer.{Packer, check_ids, publish_new_batch_created}
use broker_core.Piecerd.Store.{Message as NewBatchPrepared}
use broker_core.Piecerd.Piecer.{publish_new_batch_prepared}
use broker_core.Msgbroker.Receipt.{
  Parsers, is_nil, ids_from_pb, on_new_batch_created, on_new_batch_prepared,
}

-- cid.Cast reads the bytes of a defined cid back.
abbrev pub CastsDefined : Parsers → Type 0
CastsDefined p = (c : Cid) → is_defined c ≡ true → p.is_cid c ≡ true

-- A check, and what is sent if it passes.
pub Gives-after_check :
    {D M : Type 0} (P : M → Type 0) (b : Bool) (e : Error) (n : Done D M)
    → (b ≡ true → Gives P Any n)
    → Gives P Any (require b e >> n)
Gives-after_check P b e n k =
    Gives-bind P (λ _. b ≡ true) Any (require b e) (λ _. n) (Gives-require P b e) (λ _ h. k h)

pub Outcome-sent :
    {D M A : Type 0} (P : M → Type 0) (r : Result A × World D M) → Outcome P Any r → All P r.1.sent
Outcome-sent P (ok a, w) h = h.1
Outcome-sent P (err e, w) h = h
Outcome-sent P (panicked, w) h = h

module _ (p : Parsers) (casts : CastsDefined p) where
  abbrev pub PreparedAccepted : NewBatchPrepared → Type 0
  PreparedAccepted m =
      on_new_batch_prepared p m
      ≡ ok (m.batch_id, record { piece_size = m.piece_size; piece_cid = m.piece_cid })

  pub publish_new_batch_prepared-Gives :
      (m : NewBatchPrepared) → Gives PreparedAccepted Any (publish_new_batch_prepared m)
  unfolding publish_new_batch_prepared on_new_batch_prepared
  publish_new_batch_prepared-Gives m =
      Gives-after_check PreparedAccepted (filled m.batch_id) _ _ λ i.
        Gives-after_check PreparedAccepted (is_defined m.piece_cid) _ _ λ c.
          Gives-after_check PreparedAccepted (not (nat_eq m.piece_size 0)) _ _
            λ n. Gives-publish PreparedAccepted m (rw (i, casts m.piece_cid c, n) refl)

  -- A message of no storage requests is the one that is not accepted.
  abbrev pub CreatedAccepted : NewBatchCreated → Type 0
  CreatedAccepted m = is_nil m.storage_request_ids ≡ false → on_new_batch_created p m ≡ ok m

  check_ids-Gives :
      (P : NewBatchCreated → Type 0) (is : List String)
      → Gives {D = PackerdSchema.Db} P (λ _. ids_from_pb is ≡ ok is) (check_ids is)
  unfolding check_ids ids_from_pb done
  check_ids-Gives P [] = Gives-pure P _ tt refl
  check_ids-Gives P (i ∷ is) =
      Gives-bind P (λ _. filled i ≡ true) _ _ _ (Gives-require P _ _)
        λ _ f.
          Gives-map P (λ _. ids_from_pb is ≡ ok is) _ _ (λ _ _ _ h. rw (f, h) refl)
            (check_ids-Gives P is)

  pub publish_new_batch_created-Gives :
      (k : Packer) (m : NewBatchCreated)
      → ((u : String) → p.is_url u ≡ k.is_url u)
      → Gives CreatedAccepted Any (publish_new_batch_created k m)
  unfolding publish_new_batch_created on_new_batch_created
  publish_new_batch_created-Gives k m same =
      Gives-after_check CreatedAccepted (filled m.batch_id) _ _ λ i.
        Gives-after_check CreatedAccepted (is_defined m.batch_cid) _ _ λ c.
          Gives-after_check CreatedAccepted (filled m.origin) _ _ λ o.
            Gives-after_check CreatedAccepted (not (is_nil m.manifest)) _ _ λ f.
              Gives-after_check CreatedAccepted (not (nat_eq m.batch_size 0)) _ _ λ s.
                Gives-bind CreatedAccepted
                  (λ _. ids_from_pb m.storage_request_ids ≡ ok m.storage_request_ids) Any _ _
                  (check_ids-Gives CreatedAccepted m.storage_request_ids)
                  λ _ ids. Gives-after_check CreatedAccepted (filled m.car_url) _ _ λ u.
                    Gives-after_check CreatedAccepted (k.is_url m.car_url) _ _ λ url.
                      Gives-publish CreatedAccepted m λ some_ids.
                        rw
                          (
                            i,
                            casts m.batch_cid c,
                            c,
                            some_ids,
                            ids,
                            o,
                            f,
                            u,
                            s,
                            same m.car_url,
                            url,
                          )
                          refl
