-- ===== src/Auctioneerd/Worker/Sent.antt =====
-- What a job of the worker sends.
use broker_core.Base.{
  ℕ, ◌≡◌, ◌∙◌, refl, sym, ap, String, false, List, [], ◌∷◌, inl, inr, str_eq, All,
}
use broker_core.Effects.{Error, Result, ok, err, panicked, World}
use broker_core.Effects.Gives.{
  Gives, Any, Caught, Gives-gets, Gives-if, Gives-bind, Gives-publish, Gives-logged, Gives-succeeds,
  Gives-caught, Gives-with_tx, Gives-exec, Gives-exec_returning, Gives-done, Gives-require, Outcome,
}
use broker_core.Brokerd.Types
use broker_core.Brokerd.Types.{Ident, AuctionStatus, ClosedAuction}
use broker_core.Auctioneerd.Types.{Auction, WinningBid}
use broker_core.Auctioneerd.Events.{Message, Only}
use broker_core.Auctioneerd.Schema.{Db}
use broker_core.Auctioneerd.Bids.{Env, PbBid}
use broker_core.Auctioneerd.Bids.Valid.{Valid}
use broker_core.Auctioneerd.Queue.{same_status, save_and_transition_status, with_status}
use broker_core.Auctioneerd.Worker.{
  closed_bids, to_closed_auction, publish_closed, check_winners, finalize_auction, after_finalizer,
  save_and_finalize_auction, save_winners, winners_of, with_outcome, work,
}
use broker_core.Auctioneerd.Worker.Closed.{
  Proper, Processed, closed_bids-Entry, process_auction-Gives,
}

module _ (C : ClosedAuction → Type 0) (env : Env) where
  save_and_transition_status-Gives :
      (a : Auction) (s : AuctionStatus) → Gives (Only C) Any (save_and_transition_status a s)
  unfolding save_and_transition_status
  save_and_transition_status-Gives a s =
      Gives-bind (Only C) Any _ _ _ (Gives-gets (Only C) Any _ (λ _. tt)) λ now _.
        Gives-if (Only C) Any (same_status a.status s) _ _ (λ _. Gives-done (Only C))
          (λ _. Gives-exec (Only C) _)

  save_winners-Gives :
      (i : Ident) (ws : List (Ident × WinningBid)) (now : ℕ)
      → Gives (Only C) Any (save_winners i ws now)
  unfolding save_winners
  save_winners-Gives i [] now = Gives-done (Only C)
  save_winners-Gives i (w ∷ ws) now =
      Gives-bind (Only C) Any _ _ _
        (Gives-logged (Only C) _ (
          Gives-bind (Only C) Any Any _ _ (Gives-exec_returning (Only C) _)
            (λ _ _. Gives-done (Only C))))
        (λ _ _. save_winners-Gives i ws now)

  check_winners-Gives :
      (ws : List (Ident × Types.WinningBid)) → Gives (Only C) Any (check_winners ws)
  unfolding check_winners
  check_winners-Gives [] = Gives-done (Only C)
  check_winners-Gives (w ∷ ws) =
      Gives-bind (Only C) _ _ _ _ (Gives-require (Only C) _ _) λ _ _.
        Gives-bind (Only C) _ _ _ _ (Gives-require (Only C) _ _) λ _ _. check_winners-Gives ws

  after_finalizer-Gives :
      (a : Auction) (r : Result (Unit {0})) → Gives (Only C) Any (after_finalizer env a r)
  unfolding after_finalizer
  after_finalizer-Gives a (ok _) = Gives-done (Only C)
  after_finalizer-Gives a (err e) =
      Gives-logged (Only C) _ (save_and_transition_status-Gives _ a.status)
  after_finalizer-Gives a panicked = Gives-done (Only C)

  save_and_finalize_auction-Gives :
      (a : Auction)
      → C (to_closed_auction (with_status a AuctionStatus.finalized))
      → Gives (Only C) Any (save_and_finalize_auction env a)
  unfolding save_and_finalize_auction finalize_auction publish_closed
  save_and_finalize_auction-Gives a c =
      Gives-bind (Only C) Any Any _ _
        (Gives-succeeds (Only C) _ (save_and_transition_status-Gives a AuctionStatus.finalized))
        λ saved _.
          Gives-if (Only C) Any saved _ _
            (λ _.
              Gives-bind (Only C) (Caught Any) Any _ _
                (Gives-caught (Only C) Any _ (
                  Gives-bind (Only C) _ Any _ _ (Gives-require (Only C) _ _) (λ _ _.
                    Gives-logged (Only C) _ (
                      Gives-bind (Only C) Any Any _ _ (check_winners-Gives _)
                        (λ _ _. Gives-publish (Only C) _ c)))))
                (λ r _. after_finalizer-Gives _ r))
            (λ _. Gives-done (Only C))

-- What the worker closes.
Processed-Proper :
    (env : Env) (a sh : Auction) (x : Result (List (Ident × WinningBid)))
    → ((e : Error) → str_eq (env.text e) "" ≡ false)
    → Processed a (sh, x)
    → Proper (
        to_closed_auction (
          with_status
            (record (with_outcome env sh x) { winning_bids = winners_of x })
            AuctionStatus.finalized))
unfolding to_closed_auction closed_bids
Processed-Proper env a sh (ok ws) t p =
    let final : Auction = record sh { winning_bids = ws; status = AuctionStatus.finalized } in
    let (es, l) = closed_bids-Entry final ws p.valid p.fits.1 in
    record {
      finalized = refl;
      entries = es;
      complete = inl (l ∙ p.fits.0 ∙ sym (ap (λ y. y.deal_replication) p.same));
    }
Processed-Proper env a sh (err e) t p = record {
  finalized = refl;
  entries = tt;
  complete = inr (refl, t e);
}
Processed-Proper env a sh panicked t p = absurd p.fits

-- The auction and the deal that a closed auction is about.
pub record IsOf (a : Auction) (c : ClosedAuction) : Type 0 where
  pub id : c.id ≡ a.id
  pub batch_id : c.batch_id ≡ a.batch_id
  pub deal_duration : c.deal_duration ≡ a.deal_duration
  pub deal_replication : c.deal_replication ≡ a.deal_replication

Processed-IsOf :
    (env : Env) (a sh : Auction) (x : Result (List (Ident × WinningBid)))
    → Processed a (sh, x)
    → IsOf a (
        to_closed_auction (
          with_status
            (record (with_outcome env sh x) { winning_bids = winners_of x })
            AuctionStatus.finalized))
unfolding to_closed_auction
Processed-IsOf env a sh (ok ws) p = record {
  id = ap (λ y. y.id) p.same;
  batch_id = ap (λ y. y.batch_id) p.same;
  deal_duration = ap (λ y. y.deal_duration) p.same;
  deal_replication = ap (λ y. y.deal_replication) p.same;
}
Processed-IsOf env a sh (err e) p = record {
  id = ap (λ y. y.id) p.same;
  batch_id = ap (λ y. y.batch_id) p.same;
  deal_duration = ap (λ y. y.deal_duration) p.same;
  deal_replication = ap (λ y. y.deal_replication) p.same;
}
Processed-IsOf env a sh panicked p = absurd p.fits

-- Whatever holds of the proper closed auctions of the job's auction holds of those that are sent.
pub work-Gives :
    (C : ClosedAuction → Type 0) (env : Env) (incoming : List (String × PbBid)) (a : Auction)
    → ((c : ClosedAuction) → Proper c → IsOf a c → C c)
    → ((e : Error) → str_eq (env.text e) "" ≡ false)
    → All (λ e. Valid e.1) a.bids
    → Gives (Only C) Any (work env incoming a)
unfolding work
work-Gives C env incoming a k t v =
    Gives-bind (Only C) (Processed a) Any _ _ (process_auction-Gives C env a incoming v) λ r p.
      Gives-bind (Only C) Any Any _ _ (Gives-gets (Only C) Any _ (λ _. tt)) λ now _.
        Gives-bind (Only C) Any Any _ _
          (Gives-logged (Only C) _
            (Gives-with_tx (Only C) Any _ (save_winners-Gives C env a.id (winners_of r.1) now)))
          λ _ _.
            save_and_finalize_auction-Gives C env _
              (k _ (Processed-Proper env a r.0 r.1 t p) (Processed-IsOf env a r.0 r.1 p))

pub Outcome-sent :
    (P : Message → Type 0) (r : Result (Unit {0}) × World Db Message)
    → Outcome P Any r
    → All P r.1.sent
Outcome-sent P (ok _, w) h = h.1
Outcome-sent P (err e, w) h = h
Outcome-sent P (panicked, w) h = h

-- Whatever fails and whatever the bidders send, each closed auction that one job of the worker sends is
-- finalized, has either as many winners as the deal needs replicas or none and an error, and names for
-- each winner a storage provider, a price that is not negative and a start epoch; it is so if the texts
-- of errors are not empty, the closed auctions before were so, and the job's auction has no invalid bids.
pub work-Proper :
    (env : Env) (incoming : List (String × PbBid)) (a : Auction) (w : World Db Message)
    → ((e : Error) → str_eq (env.text e) "" ≡ false)
    → All (λ e. Valid e.1) a.bids
    → All (Only Proper) w.sent
    → All (Only Proper) (work env incoming a w).1.sent
work-Proper env incoming a w t v h =
    Outcome-sent (Only Proper) (work env incoming a w)
      ((work-Gives Proper env incoming a (λ c p _. p) t v).at w h)
