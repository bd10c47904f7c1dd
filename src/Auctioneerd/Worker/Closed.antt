-- ===== src/Auctioneerd/Worker/Closed.antt =====
-- The closed auctions that the worker sends.
use broker_core.Base.{
  ℕ, ◌≡◌, refl, subst, String, Bool, true, false, List, [], ◌∷◌, ◌&&◌, ◌⊎◌, inl, inr, str_eq,
  nat_eq, eq_iff, length, All, All-map, Bool-cases, arith,
}
use broker_core.Base.Int.{is_neg}
use broker_core.Base.Maps.{has_key, lookup-some}
use broker_core.Base.Rows.{exists_row, count_rows}
use broker_core.Effects.{Result, ok, err, panicked, unavailable}
use broker_core.Effects.Gives.{
  Gives, Any, Caught, Gives-pure, Gives-gets, Gives-if, Gives-map, Gives-bind, Gives-publish,
  Gives-logged, Gives-succeeds, Gives-caught,
}
use broker_core.Brokerd.Types
use broker_core.Brokerd.Types.{Ident, AuctionStatus, ClosedAuction}
use broker_core.Auctioneerd.Types.{Auction, Bid, WinningBid}
use broker_core.Auctioneerd.Events.{Only}
use broker_core.Auctioneerd.Winners.{Market, select_winners, current_fil_epoch}
use broker_core.Auctioneerd.Winners.Eligible.{IsWinner, is_entry}
use broker_core.Auctioneerd.Winners.Elected.{Elected, select_winners-Elected}
use broker_core.Auctioneerd.Winners.Sends.{select_winners-Gives}
use broker_core.Auctioneerd.Bids.{Env, PbBid, process_auction}
use broker_core.Auctioneerd.Bids.Valid.{Valid, Kept, handle_bids-Gives}
use broker_core.Auctioneerd.Worker.{closed_bid, closed_bids}

-- An entry of a closed auction names a storage provider, a price that is not negative, and a start epoch.
pub record Entry (e : Ident × Types.WinningBid) : Type 0 where
  pub provider : str_eq e.1.storage_provider_id "" ≡ false
  pub price : is_neg e.1.price ≡ false
  pub start_epoch : nat_eq e.1.start_epoch 0 ≡ false

-- A closed auction is finalized, and has a winner for each replica, or none and an error.
pub record Proper (c : ClosedAuction) : Type 0 where
  pub finalized : c.status ≡ AuctionStatus.finalized
  pub entries : All Entry c.winning_bids
  pub complete :
      (length c.winning_bids ≡ c.deal_replication)
      ⊎ ((c.winning_bids ≡ []) × (str_eq c.error_cause "" ≡ false))

-- The winners of a closed auction.
closed_bid-Entry : (a : Auction) (i : Ident) (b : Bid) → Valid b → Entry (i, closed_bid a b)
closed_bid-Entry a i b v = record {
  provider = v.provider;
  price = elim (Bool-cases a.deal_verified) [
    | inl e ↦ rw e v.verified_ask_price
    | inr e ↦ rw e v.ask_price
  ];
  start_epoch = v.start_epoch;
}

pub closed_bids-Entry :
    (a : Auction) (ws : List (Ident × WinningBid))
    → All (λ e. Valid e.1) a.bids
    → All (λ e. has_key e.0 a.bids ≡ true) ws
    → All Entry (closed_bids a ws) × (length (closed_bids a ws) ≡ length ws)
unfolding closed_bids
closed_bids-Entry a [] v h = (tt, refl)
closed_bids-Entry a (w ∷ ws) v h =
    let (b, e, p) = lookup-some Valid w.0 a.bids h.0 v in
    let (es, l) = closed_bids-Entry a ws v h.1 in
    rw (closed_bids, e) ((closed_bid-Entry a w.0 b p, es), omega (arith, l))

-- What processAuction returns: the auction with valid bids, and as many winners among them as it needs.
abbrev pub Fits : Auction → Auction × Result (List (Ident × WinningBid)) → Type 0
Fits a (sh, ok ws) = (length ws ≡ a.deal_replication) × All (λ e. has_key e.0 sh.bids ≡ true) ws
Fits a (sh, err e) = Unit
Fits a (sh, panicked) = ⊥

pub record Processed (a : Auction) (r : Auction × Result (List (Ident × WinningBid))) : Type 0 where
  pub same : r.0 ≡ record a { bids = (r.0).bids }
  pub valid : All (λ e. Valid e.1) (r.0).bids
  pub fits : Fits a r

winner-has_key :
    (p : Bid → Bool) (e : Ident × WinningBid) (m : List (Ident × Bid)) (bs : List Bid)
    → exists_row (λ b. p b && is_entry e b) bs ≡ true
    → All (λ b. has_key b.id m ≡ true) bs
    → has_key e.0 m ≡ true
unfolding exists_row
winner-has_key p e m [] h k = cc
winner-has_key p e m (b ∷ bs) h k = elim (Bool-cases (p b && is_entry e b)) [
  | inl t ↦ let q = (eq_iff b.id e.0).0 (ground (arith, t)) in subst (λ i. has_key i m ≡ true) q k.0
  | inr n ↦ winner-has_key p e m bs (rw n at h) k.1
]

Elected-ok :
    (m : Market) (current : ℕ) (a : Auction) (bids : List Bid)
    (r : Result (List (Ident × WinningBid))) (ws : List (Ident × WinningBid))
    → r ≡ ok ws
    → Elected m current a bids r
    → (length ws ≡ a.deal_replication) × All (IsWinner m current a bids) ws
Elected-ok m current a bids (ok vs) ws e h =
    let q : vs ≡ ws = cc in
    subst (λ us. (length us ≡ a.deal_replication) × All (IsWinner m current a bids) us) q h
Elected-ok m current a bids (err x) ws e h = cc
Elected-ok m current a bids panicked ws e h = cc

Caught-Fits :
    (a sh : Auction) (x : Result (List (Ident × WinningBid)))
    → Caught (λ ws. Fits a (sh, ok ws)) x
    → Fits a (sh, x)
Caught-Fits a sh (ok ws) h = h
Caught-Fits a sh (err e) h = tt
Caught-Fits a sh panicked h = absurd h

Kept-first :
    (a : Auction)
    → All (λ e. Valid e.1) a.bids
    → Kept a (record { shared = a; bidders = []; bids = [] })
unfolding count_rows
Kept-first a v = record {
  same = refl;
  valid = v;
  in_map = tt;
  accepted = tt;
  known = tt;
  once = λ p. omega arith;
}

module _ (C : ClosedAuction → Type 0) (env : Env) where
  winners-Gives :
      (a sh : Auction) (bids : List Bid)
      → All (λ b. has_key b.id sh.bids ≡ true) bids
      → Gives (Only C) (λ ws. Fits a (sh, ok ws)) (select_winners env.market a bids)
  winners-Gives a sh bids k =
      Gives-map (Only C) Any _ (select_winners env.market a bids)
        (λ w ws e _.
          let (l, v) =
            Elected-ok env.market (current_fil_epoch w.now) a bids _ ws e
              (select_winners-Elected env.market a bids w) in
          (l, All-map _ _ ws (λ x q. winner-has_key _ x sh.bids bids q k) v))
        (select_winners-Gives C env.market a bids)

  pub process_auction-Gives :
      (a : Auction) (incoming : List (String × PbBid))
      → All (λ e. Valid e.1) a.bids
      → Gives (Only C) (Processed a) (process_auction env a incoming)
  unfolding process_auction
  process_auction-Gives a incoming v =
      Gives-bind (Only C) Any _ _ _ (Gives-logged (Only C) _ (Gives-publish (Only C) _ tt)) λ _ _.
        Gives-bind (Only C) Any _ _ _ (Gives-gets (Only C) Any _ (λ _. tt)) λ now _.
          Gives-bind (Only C) Any _ _ _ (Gives-succeeds (Only C) _ (Gives-publish (Only C) _ tt))
            λ announced _.
              Gives-if (Only C) (Processed a) announced _ _
                (λ _.
                  Gives-bind (Only C) (Kept a) _ _ _
                    (handle_bids-Gives C a env incoming _ (Kept-first a v))
                    λ r k.
                      Gives-bind (Only C) (Caught (λ ws. Fits a (r.shared, ok ws))) _ _ _
                        (Gives-caught (Only C) _ _ (winners-Gives a r.shared r.bids k.in_map))
                        (λ x f.
                          Gives-pure (Only C) (Processed a) (r.shared, x)
                            (record {
                              same = k.same;
                              valid = k.valid;
                              fits = Caught-Fits a r.shared x f;
                            })))
                (λ _.
                  Gives-pure (Only C) (Processed a) (a, err unavailable)
                    (record { same = refl; valid = v; fits = tt }))
