-- ===== src/Auctioneerd/Winners/Sends.antt =====
-- The selection of the winners sends no closed auction.
use broker_core.Base.{
  ℕ, zero, suc, ◌+◌, Option, none, some, List, [], ltb, Bool-cases, inl, inr, length,
}
use broker_core.Effects.Gives.{
  Gives, Any, Gives-pure, Gives-raise, Gives-panic, Gives-if, Gives-lift, Gives-gets, Gives-bind,
  Gives-publish, Gives-logged, Gives-succeeds,
}
use broker_core.Brokerd.Types.{Ident, ClosedAuction}
use broker_core.Auctioneerd.Heap.{Heap, len}
use broker_core.Auctioneerd.Types.{Auction, Bid, WinningBid}
use broker_core.Auctioneerd.Events.{Only}
use broker_core.Auctioneerd.Sorter.{Iter}
use broker_core.Auctioneerd.Winners.{
  Market, Action, offer, select_one_winner, one_round, settle, rounds, select_winners,
  insufficient_bids, top_n,
}

module _ (C : ClosedAuction → Type 0) where
  offer-Gives :
      (a : Auction) (again : Action (Option Bid × Heap Bid)) (o : Option Bid) (h : Heap Bid)
      → Gives (Only C) Any again
      → Gives (Only C) Any (offer a again o h)
  unfolding offer
  offer-Gives a again none h g = Gives-pure (Only C) Any _ tt
  offer-Gives a again (some b) h g =
      Gives-bind (Only C) Any Any _ _ (Gives-logged (Only C) _ (Gives-publish (Only C) _ tt)) λ _ _.
        Gives-bind (Only C) Any Any _ _ (Gives-succeeds (Only C) _ (Gives-publish (Only C) _ tt))
          λ won _. Gives-if (Only C) Any won _ _ (λ _. Gives-pure (Only C) Any _ tt) (λ _. g)

  select_one_winner-Gives :
      (k : ℕ) (coin : ℕ → ℕ) (a : Auction) (it : Iter) (h : Heap Bid)
      → Gives (Only C) Any (select_one_winner k coin a it h)
  unfolding select_one_winner
  select_one_winner-Gives zero coin a it h = Gives-panic (Only C) Any
  select_one_winner-Gives (suc k) coin a it h =
      Gives-bind (Only C) Any Any _ _ (Gives-lift (Only C) Any _ (λ _ _. tt))
        λ r _. offer-Gives a _ r.0 r.2 (select_one_winner-Gives k coin a r.1 r.2)

  settle-Gives :
      (a : Auction) (i : ℕ) (ws : List (Ident × WinningBid))
      (again : List (Ident × WinningBid) → Action (List (Ident × WinningBid))) (o : Option Bid)
      → ((ws' : List (Ident × WinningBid)) → Gives (Only C) Any (again ws'))
      → Gives (Only C) Any (settle a i ws again o)
  unfolding settle
  settle-Gives a i ws again (some b) g =
      Gives-bind (Only C) Any Any _ _ (Gives-logged (Only C) _ (Gives-publish (Only C) _ tt))
        λ _ _. g _
  settle-Gives a i ws again none g =
      Gives-if (Only C) Any (ltb i 4) _ _ (λ _. g ws)
        (λ _. Gives-raise (Only C) Any insufficient_bids)

  rounds-Gives :
      (k : ℕ) (m : Market) (a : Auction) (top i : ℕ) (ws : List (Ident × WinningBid)) (h : Heap Bid)
      → Gives (Only C) Any (rounds k m a top i ws h)
  unfolding rounds one_round
  rounds-Gives zero m a top i ws h = Gives-panic (Only C) Any
  rounds-Gives (suc k) m a top i ws h = elim (Bool-cases (ltb (length ws) a.deal_replication)) [
    | inr e ↦ rw (rounds, e) (Gives-pure (Only C) Any ws tt)
    | inl e ↦
        rw (rounds, e)
          (Gives-bind (Only C) Any Any (one_round m a top i h) _
            (Gives-bind (Only C) Any Any _ _ (Gives-lift (Only C) Any _ (λ _ _. tt))
              λ s _. select_one_winner-Gives (len h + 1) m.coin a s.0 s.1)
            λ r _.
              settle-Gives a i ws (λ ws'. rounds k m a top (i + 1) ws' r.1) r.0
                (λ ws'. rounds-Gives k m a top (i + 1) ws' r.1))
  ]

  pub select_winners-Gives :
      (m : Market) (a : Auction) (bids : List Bid) → Gives (Only C) Any (select_winners m a bids)
  unfolding select_winners
  select_winners-Gives m a bids =
      Gives-bind (Only C) Any Any _ _ (Gives-gets (Only C) Any _ (λ _. tt)) λ now _.
        Gives-bind (Only C) Any Any _ _ (Gives-lift (Only C) Any _ (λ _ _. tt))
          λ h _. rounds-Gives (len h + 5) m a (top_n (len h)) 0 [] h
