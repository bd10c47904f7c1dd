-- ===== src/Msgbroker/Created.antt =====
-- From packerd to brokerd: the receiver of new-batch-created accepts what packerd's rounds publish.
use broker_core.Base.{◌≡◌, ℕ, String, Option, none, some, List, All}
use broker_core.Effects.{World}
use broker_core.Effects.Gives.{
  Gives, Any, Gives-pure, Gives-bind, Gives-map, Gives-gets, Gives-require, Gives-lift, Gives-exec,
  Gives-query, Gives-exec_returning, Gives-logged, Gives-with_tx,
}
use broker_core.Packerd.Schema.{Db, BatchRow, RequestRow, Status}
use broker_core.Packerd.Store
use broker_core.Packerd.Store.{Message, Env}
use broker_core.Packerd.Packer
use broker_core.Packerd.Packer.{Packer}
use broker_core.Msgbroker.Receipt.{Parsers}
use broker_core.Msgbroker.Accepted.{
  Outcome-sent, CastsDefined, CreatedAccepted, publish_new_batch_created-Gives,
}

module _ (p : Parsers) (casts : CastsDefined p) (k : Packer)
    (same_urls : (u : String) → p.is_url u ≡ k.is_url u) where
  abbrev P : Message → Type 0
  P = CreatedAccepted p casts

  move-Gives : (i : String) (delay : ℕ) (s : Status) → Gives P Any (Store.move_to_status i delay s)
  unfolding Store.move_to_status
  move-Gives i delay s = Gives-bind P Any Any _ _ (Gives-gets P Any _ (λ _. tt)) λ now _.
      Gives-with_tx P Any _ (
        Gives-bind P Any Any _ _ (Gives-exec_returning P _)
          λ count _. Gives-map P _ Any _ (λ _ _ _ _. tt) (Gives-require P _ _))

  close-Gives : (e : Env) → Gives P Any (Store.time_based_batch_close e)
  unfolding Store.time_based_batch_close
  close-Gives e =
      Gives-bind P Any Any _ _ (Gives-gets P Any _ (λ _. tt))
        λ now _. Gives-with_tx P Any _ (Gives-exec P _)

  with_requests-Gives : (o : Option BatchRow) → Gives P Any (Store.with_requests o)
  unfolding Store.with_requests
  with_requests-Gives none = Gives-pure P Any _ tt
  with_requests-Gives (some b) =
      Gives-bind P Any Any _ _ (Gives-query P _) λ srs _. Gives-pure P Any _ tt

  get_next-Gives : Gives P Any Store.get_next_ready_batch
  unfolding Store.get_next_ready_batch
  get_next-Gives = Gives-bind P Any Any _ _ (Gives-gets P Any _ (λ _. tt)) λ now _.
      Gives-with_tx P Any _
        (Gives-bind P Any Any _ _ (Gives-exec_returning P _) λ next _. with_requests-Gives next)

  pack_next-Gives : (o : Option (BatchRow × List RequestRow)) → Gives P Any (Packer.pack_next k o)
  unfolding Packer.pack_next
  pack_next-Gives none = Gives-pure P Any _ tt
  pack_next-Gives (some (b, srs)) =
      Gives-bind P Any Any _ _ (Gives-lift P Any _ (λ _ _. tt)) λ dag _.
        Gives-bind P Any Any _ _ (move-Gives _ _ _) λ _ _.
          Gives-bind P Any Any _ _ (publish_new_batch_created-Gives p casts k _ same_urls)
            λ _ _. Gives-pure P Any _ tt

  pack-Gives : Gives P Any (Packer.pack k)
  unfolding Packer.pack
  pack-Gives =
      Gives-bind P Any Any _ _ (Gives-logged P _ (close-Gives k.store))
        λ _ _. Gives-bind P Any Any _ _ get_next-Gives λ next _. pack_next-Gives next

-- In a round of packerd's daemon, with any failures, the receiver of the topic new-batch-created accepts
-- each message that packerd sends for a batch with at least one storage request, and calls the listener
-- with the ids, the cid, the size, the origin, the manifest and the URL that packerd has sent, if this
-- holds of the messages before the round. Sender and receiver parse URLs alike, and the bytes of a defined
-- cid are taken to be accepted by cid.Cast.
pub pack-CreatedAccepted :
    (p : Parsers) (casts : CastsDefined p) (k : Packer)
    (same_urls : (u : String) → p.is_url u ≡ k.is_url u) (w : World Db Message)
    → All (CreatedAccepted p casts) w.sent
    → All (CreatedAccepted p casts) (Packer.pack k w).1.sent
pack-CreatedAccepted p casts k same_urls w h =
    Outcome-sent (CreatedAccepted p casts) (Packer.pack k w)
      ((pack-Gives p casts k same_urls).at w h)
