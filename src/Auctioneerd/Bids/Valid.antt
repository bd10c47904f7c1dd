-- ===== src/Auctioneerd/Bids/Valid.antt =====
-- The bids that a running auction keeps are valid, and the bids that take part are in its map of bids.
use broker_core.Base.{
  ◌+◌, ◌≤◌, ◌≡◌, refl, ap, eq_iff, String, Bool, true, false, List, [], ◌∷◌, ◌++◌, ◌&&◌, not,
  nat_eq, str_eq, eq_refl, if◌then◌else◌, contains, All, All-map, All-append, Bool-cases, inl, inr,
  arith,
}
use broker_core.Base.Int.{is_neg}
use broker_core.Base.Maps.{put, has_key, All-put, has_key-put, has_key-put_self}
use broker_core.Base.Rows.{count_rows}
use broker_core.Effects.{Result, ok, err, panicked, pure}
use broker_core.Effects.Gives.{
  Gives, Any, Caught, Gives-map, Gives-if, Gives-pure, Gives-gets, Gives-lift, Gives-bind,
  Gives-require, Gives-publish, Gives-logged, Gives-succeeds, Gives-insert, Gives-new_id,
  Gives-caught,
}
use broker_core.Brokerd.Types.{ClosedAuction}
use broker_core.Auctioneerd.Types.{Auction, Bid}
use broker_core.Auctioneerd.Events.{Only}
use broker_core.Auctioneerd.Schema.{Db}
use broker_core.Auctioneerd.Bids.{
  Env, PbBid, Running, validate_bid, checked_bid, accept_bid, add_bid, receive, handle_bid,
  handle_bids, mapped, is_started,
}

pub record Valid (b : Bid) : Type 0 where
  pub provider : str_eq b.storage_provider_id "" ≡ false
  pub ask_price : is_neg b.ask_price ≡ false
  pub verified_ask_price : is_neg b.verified_ask_price ≡ false
  pub start_epoch : nat_eq b.start_epoch 0 ≡ false

not-false : (b : Bool) → not b ≡ true → b ≡ false
not-false true h = cc
not-false false h = refl

module _ (C : ClosedAuction → Type 0) (env : Env) where
  validate_bid-Gives : (b : Bid) → Gives (Only C) (λ _. Valid b) (validate_bid env b)
  unfolding validate_bid
  validate_bid-Gives b = Gives-bind (Only C) _ _ _ _ (Gives-require (Only C) _ _) λ _ p.
      Gives-bind (Only C) _ _ _ _ (Gives-require (Only C) _ _) λ _ _.
        Gives-bind (Only C) _ _ _ _ (Gives-require (Only C) _ _) λ _ _.
          Gives-bind (Only C) _ _ _ _ (Gives-require (Only C) _ _) λ _ k.
            Gives-bind (Only C) _ _ _ _ (Gives-require (Only C) _ _) λ _ v.
              Gives-bind (Only C) _ _ _ _ (Gives-require (Only C) _ _) λ _ s.
                Gives-bind (Only C) Any _ _ _ (Gives-lift (Only C) Any _ (λ _ _. tt)) λ ok? _.
                  Gives-map (Only C) _ _ _
                    (λ _ _ _ _. record {
                      provider = not-false _ p;
                      ask_price = not-false _ k;
                      verified_ask_price = not-false _ v;
                      start_epoch = not-false _ s;
                    })
                    (Gives-require (Only C) ok? _)

  checked_bid-Gives :
      (sender : String) (pb : PbBid) → Gives (Only C) Valid (checked_bid env sender pb)
  unfolding checked_bid
  checked_bid-Gives sender pb = Gives-bind (Only C) Any _ _ _ (Gives-new_id (Only C) env.id) λ id _.
      Gives-bind (Only C) Any _ _ _ (Gives-gets (Only C) Any _ (λ _. tt)) λ now _.
        Gives-bind (Only C) _ _ _ _ (validate_bid-Gives _) λ _ v. Gives-pure (Only C) Valid _ v

-- What holds of a running auction: but for its bids it is the auction that it was, its map has valid
-- bids, and those that take part are in the map, are accepted, and are of different bidders.
pub record Kept (a : Auction) (r : Running) : Type 0 where
  pub same : r.shared ≡ record a { bids = r.shared.bids }
  pub valid : All (λ e. Valid e.1) r.shared.bids
  pub in_map : All (λ b. has_key b.id r.shared.bids ≡ true) r.bids
  pub accepted : All (λ b. accept_bid a b ≡ true) r.bids
  pub known : All (λ b. contains r.bidders b.bidder_id ≡ true) r.bids
  pub once : (p : String) → count_rows (λ b. str_eq b.bidder_id p) r.bids ≤ 1

count_rows-none :
    (p : String) (ps : List String) (bs : List Bid)
    → contains ps p ≡ false
    → All (λ b. contains ps b.bidder_id ≡ true) bs
    → count_rows (λ b. str_eq b.bidder_id p) bs ≡ 0
unfolding count_rows
count_rows-none p ps [] h k = refl
count_rows-none p ps (b ∷ bs) h k = elim (Bool-cases (str_eq b.bidder_id p)) [
  | inl t ↦ let q = (eq_iff b.bidder_id p).0 t in let n = rw q at k.0 in cc
  | inr f ↦ rw f (omega (arith, count_rows-none p ps bs h k.1))
]

count_rows-snoc :
    (q : Bid → Bool) (bs : List Bid) (b : Bid)
    → count_rows q (bs ++ b ∷ []) ≡ count_rows q bs + (if q b then 1 else 0)
unfolding count_rows
count_rows-snoc q [] b = omega arith
count_rows-snoc q (x ∷ xs) b = omega (arith, count_rows-snoc q xs b)

module _ (a : Auction) (b : Bid) (r : Running) where
  known_too :
      All (λ x. contains r.bidders x.bidder_id ≡ true) r.bids
      → All (λ x. contains (b.bidder_id ∷ r.bidders) x.bidder_id ≡ true) r.bids
  unfolding contains
  known_too h = All-map _ _ r.bids (λ x e. ground (arith, e)) h

  Kept-bidder : Kept a r → Kept a (record r { bidders = b.bidder_id ∷ r.bidders })
  Kept-bidder k = record {
    same = k.same;
    valid = k.valid;
    in_map = k.in_map;
    accepted = k.accepted;
    known = known_too k.known;
    once = k.once;
  }

  Kept-mapped : Kept a r → Valid b → Kept a (mapped b r)
  Kept-mapped k v = record {
    same = ap {A = Auction} (λ x. record x { bids = put b.id b r.shared.bids }) k.same;
    valid = All-put (λ e. Valid e.1) b.id b r.shared.bids v k.valid;
    in_map = All-map _ _ r.bids (λ x e. has_key-put x.id b.id b r.shared.bids e) k.in_map;
    accepted = k.accepted;
    known = k.known;
    once = k.once;
  }

  Kept-added :
      Kept a r
      → Valid b
      → accept_bid a b ≡ true
      → contains r.bidders b.bidder_id ≡ true
      → ((p : String)
          → str_eq b.bidder_id p ≡ true
          → count_rows (λ x. str_eq x.bidder_id p) r.bids ≡ 0)
      → Kept a (record (mapped b r) { bids = r.bids ++ b ∷ [] })
  Kept-added k v c d n =
      let m = Kept-mapped k v in
      record {
        same = m.same;
        valid = m.valid;
        in_map = All-append _ r.bids (b ∷ []) m.in_map (has_key-put_self b.id b r.shared.bids, tt);
        accepted = All-append _ r.bids (b ∷ []) k.accepted (c, tt);
        known = All-append _ r.bids (b ∷ []) k.known (d, tt);
        once = λ p.
            ground (arith, count_rows-snoc (λ x. str_eq x.bidder_id p) r.bids b, k.once p, n p);
      }

contains-first : (p : String) (ps : List String) → contains (p ∷ ps) p ≡ true
unfolding contains
contains-first p ps = rw (eq_refl p) refl

module _ (C : ClosedAuction → Type 0) (a : Auction) where
  add_bid-Gives :
      (b : Bid) (r : Running)
      → Kept a r
      → Valid b
      → accept_bid a b ≡ true
      → contains r.bidders b.bidder_id ≡ true
      → ((p : String)
          → str_eq b.bidder_id p ≡ true
          → count_rows (λ x. str_eq x.bidder_id p) r.bids ≡ 0)
      → Gives (Only C) (Kept a) (add_bid b r)
  unfolding add_bid
  add_bid-Gives b r k v c d n =
      Gives-if (Only C) (Kept a) (is_started r.shared.status) _ _
        (λ _.
          Gives-bind (Only C) Any _ _ _ (Gives-succeeds (Only C) _ (Gives-insert (Only C) _))
            (λ added _. kept added))
        (λ _. Gives-pure (Only C) (Kept a) r k)
    where
      kept :
          (added : Bool)
          → Gives {D = Db}
              (Only C)
              (Kept a)
              (pure (if added then record (mapped b r) { bids = r.bids ++ b ∷ [] } else mapped b r))
      kept true = Gives-pure (Only C) (Kept a) _ (Kept-added a b r k v c d n)
      kept false = Gives-pure (Only C) (Kept a) _ (Kept-mapped a b r k v)

  and-both : (s t : Bool) → (s && t) ≡ true → (s ≡ true) × (t ≡ true)
  and-both s t h = (ground (arith, h), ground (arith, h))

  receive-Gives :
      (b : Bid) (r : Running) → Kept a r → Valid b → Gives (Only C) (Kept a) (receive a r b)
  unfolding receive
  receive-Gives b r k v =
      Gives-bind (Only C) Any _ _ _ (Gives-logged (Only C) _ (Gives-publish (Only C) _ tt)) λ _ _.
        Gives-if (Only C) (Kept a) _ _ _
          (λ e.
            let (c, n) = and-both _ _ e in
            add_bid-Gives b (record r { bidders = b.bidder_id ∷ r.bidders }) (Kept-bidder a b r k) v
              c (first r.bidders) (λ p q. none_yet p q (not-false _ n)))
          (λ _. Gives-pure (Only C) (Kept a) r k)
    where
      first : (ps : List String) → contains (b.bidder_id ∷ ps) b.bidder_id ≡ true
      first ps = contains-first b.bidder_id ps

      none_yet :
          (p : String)
          → str_eq b.bidder_id p ≡ true
          → contains r.bidders b.bidder_id ≡ false
          → count_rows (λ x. str_eq x.bidder_id p) r.bids ≡ 0
      none_yet p q n =
          let e = (eq_iff b.bidder_id p).0 q in
          count_rows-none p r.bidders r.bids (rw e at n) k.known

  handle_bid-Gives :
      (env : Env) (r : Running) (sender : String) (pb : PbBid)
      → Kept a r
      → Gives (Only C) (Kept a) (handle_bid env a r sender pb)
  unfolding handle_bid
  handle_bid-Gives env r sender pb k =
      Gives-bind (Only C) (Caught Valid) (Kept a) _ _
        (Gives-caught (Only C) Valid _ (checked_bid-Gives C env sender pb)) go
    where
      go :
          (x : Result Bid)
          → Caught Valid x
          → Gives
              (Only C)
              (Kept a)
              (elim x [ ok b ↦ receive a r b | err e ↦ pure r | panicked ↦ pure r ])
      go (ok b) v = receive-Gives b r k v
      go (err e) v = Gives-pure (Only C) (Kept a) r k
      go panicked v = Gives-pure (Only C) (Kept a) r k

  pub handle_bids-Gives :
      (env : Env) (xs : List (String × PbBid)) (r : Running)
      → Kept a r
      → Gives (Only C) (Kept a) (handle_bids env a xs r)
  unfolding handle_bids
  handle_bids-Gives env [] r k = Gives-pure (Only C) (Kept a) r k
  handle_bids-Gives env (x ∷ xs) r k =
      Gives-bind (Only C) (Kept a) _ _ _ (handle_bid-Gives env r x.0 x.1 k)
        (λ r' k'. handle_bids-Gives env xs r' k')
