-- ===== src/Auctioneerd/Proposals/Delivered.antt =====
-- A proposal that the auctioneer reports as delivered has been published on the bidder's topic.
use broker_core.Base.{
  ◌≡◌, refl, String, Bool, true, false, Option, none, some, List, [], ◌∷◌, ◌++◌, ◌&&◌, str_eq,
  eq_refl, All, All-map, All-append, arith,
}
use broker_core.Base.Rows.{exists_row, exists_row-append, exists_row-append_self}
use broker_core.Effects.{
  message, unavailable, Error, Result, ok, err, panicked, World, done, publish, caught, lift, pure,
  require, logged, ◌>>◌, ◌>>=◌,
}
use broker_core.Effects.Triple.{
  Triple-raise, Triple-attempt, Triple, Keeping, OnOk, Post, Triple-bind, Triple-map, Triple-pure,
  Triple-gets, Triple-lift, Triple-if, Triple-require, Triple-publish, Triple-exec, Triple-logged,
  Triple-caught_ok, Triple-caught,
}
use broker_core.Effects.SentTx.{Sent, Triple-with_tx, Triple-query}
use broker_core.Brokerd.Types.{Ident, Cid}
use broker_core.Auctioneerd.Types.{Auction, Bid}
use broker_core.Auctioneerd.Events.{Message}
use broker_core.Auctioneerd.Schema.{Db, BidRow, AuctionRow}
use broker_core.Auctioneerd.Queue.{Codec, auction_from_db, check_addrs}
use broker_core.Auctioneerd.Winners.{Action}
use broker_core.Auctioneerd.Proposals.{
  Answer, answered, publish_proposal, save_delivery, set_proposal_cid_delivered,
  set_proposal_cid_delivery_error, cause_of, deliver, deliver_boost, get_finalized_auction_bid,
  get_auction, with_bids, with_bid, bid_from_db, proposal_of, find_bid,
}

abbrev pub is_proposal : Ident → Ident → String → String → Message → Bool
is_proposal i b x c (Message.proposal i' b' x' c') =
    str_eq i' i && str_eq b' b && str_eq x' x && str_eq c' c
is_proposal i b x c _ = false

-- The proposal has been sent.
abbrev pub IsSent : Ident → Ident → String → String → List Message → Type 0
IsSent i b x c s = exists_row (is_proposal i b x c) s ≡ true

-- A report without an error is of a proposal that has been sent.
abbrev pub IsBacked : List Message → Message → Type 0
IsBacked s (Message.proposal_cid_delivered i x b c e) = str_eq e "" ≡ true → IsSent i b x c s
IsBacked s _ = Unit

abbrev pub Backed : List Message → Type 0
Backed s = All (IsBacked s) s

IsBacked-append : (s t : List Message) (m : Message) → IsBacked s m → IsBacked (s ++ t) m
IsBacked-append s t (Message.proposal_cid_delivered i x b c e) h =
    λ n. exists_row-append (is_proposal i b x c) s t (h n)
IsBacked-append s t (Message.job a) h = tt
IsBacked-append s t (Message.announced a) h = tt
IsBacked-append s t (Message.started a) h = tt
IsBacked-append s t (Message.bid_received a b) h = tt
IsBacked-append s t (Message.winner_selected a b) h = tt
IsBacked-append s t (Message.winner_acked a b) h = tt
IsBacked-append s t (Message.closed c) h = tt
IsBacked-append s t (Message.win a b x y) h = tt
IsBacked-append s t (Message.proposal a b x c) h = tt

Backed-append :
    (s : List Message) (m : Message) → IsBacked (s ++ m ∷ []) m → Backed s → Backed (s ++ m ∷ [])
Backed-append s m b h =
    All-append (IsBacked (s ++ m ∷ [])) s (m ∷ [])
      (All-map _ _ s (λ x k. IsBacked-append s (m ∷ []) x k) h) (b, tt)

abbrev pub J : Db → List Message → Type 0
J = Sent Backed

pub same : (d : Db) (s : List Message) → J d s → J d s
same d s h = h

-- Backed, and the proposal has been sent.
abbrev Delivered : Ident → Ident → String → String → Db → List Message → Type 0
Delivered i b x c d s = Backed s × IsSent i b x c s

module _ (answer : List Message → Answer) (i b : Ident) (x c : String) where
  abbrev Outcome : Unit {0} → Db → List Message → Type 0
  Outcome _ = Delivered i b x c

  answered-Triple : (a : Answer) → Triple (Delivered i b x c) Outcome J (answered a)
  unfolding answered done
  answered-Triple Answer.acknowledged = Triple-pure (Delivered i b x c) Outcome J tt (λ d s h. h)
  answered-Triple Answer.unanswered = Triple-pure (Delivered i b x c) Outcome J tt (λ d s h. h)
  answered-Triple (Answer.refused e) =
      Triple-raise (Delivered i b x c) Outcome J (message e) (λ d s h. h.0)

  publish_proposal-Triple : Triple J Outcome J (publish_proposal answer i b x c)
  unfolding publish_proposal
  publish_proposal-Triple = Triple-bind J (Keeping J) Outcome J _ _ (Triple-attempt J J same) λ _.
      Triple-bind J Outcome Outcome J _ _
        (Triple-publish J J same Outcome (Message.proposal i b x c) λ d s h. (
          Backed-append s (Message.proposal i b x c) tt h,
          exists_row-append_self (is_proposal i b x c) s (Message.proposal i b x c)
              (rw (eq_refl i, eq_refl b, eq_refl x, eq_refl c) refl),
        ))
        λ _.
          Triple-bind (Delivered i b x c) (λ _. Delivered i b x c) Outcome J _ _
            (Triple-gets (Delivered i b x c) (λ _. Delivered i b x c) J _ (λ _ d s h. h))
            answered-Triple

  caught-Triple :
      Triple J (OnOk J J (λ _. Delivered i b x c)) J (caught (publish_proposal answer i b x c))
  caught-Triple = Triple-caught_ok J J (λ _. Delivered i b x c) _ publish_proposal-Triple

-- With an error condition that follows from the old one.
Triple-error :
    {A : Type 0} (P K K' : Db → List Message → Type 0) (Q : A → Db → List Message → Type 0)
    (m : Action A)
    → ((d : Db) (s : List Message) → K d s → K' d s)
    → Triple P Q K m
    → Triple P Q K' m
Triple-error {A = A} P K K' Q m k t = record { at = λ w h. weaken (m w) (t.at w h) }
  where
    weaken : (r : Result A × World Db Message) → Post Q K r → Post Q K' r
    weaken (ok a, w) h = h
    weaken (err e, w) h = k w.db w.sent h
    weaken (panicked, w) h = k w.db w.sent h

module _ (S : List Message → Type 0) (text : Error → String) where
  save_delivery-Triple :
      (i b : Ident) (c : String) (r : Result (Unit {0}))
      → Triple (Sent S) (Keeping (Sent S)) (Sent S) (save_delivery text i b c r)
  unfolding save_delivery set_proposal_cid_delivered set_proposal_cid_delivery_error done
  save_delivery-Triple i b c (ok _) = Triple-logged (Sent S) (Sent S) _ (
      Triple-bind (Sent S) (Keeping (Sent S)) (Keeping (Sent S)) (Sent S) _ _
        (Triple-gets (Sent S) (Keeping (Sent S)) (Sent S) _ (λ _ d s h. h))
        λ now. Triple-exec (Sent S) (Sent S) (λ d s h. h) (Keeping (Sent S)) _ (λ d s h. h))
  save_delivery-Triple i b c (err e) =
      Triple-logged (Sent S) (Sent S) _
        (Triple-exec (Sent S) (Sent S) (λ d s h. h) (Keeping (Sent S)) _ (λ d s h. h))
  save_delivery-Triple i b c panicked =
      Triple-pure (Sent S) (Keeping (Sent S)) (Sent S) tt (λ d s h. h)

-- An action that keeps what has been sent backed.
abbrev pub KeepsBacked : {A : Type 0} → Action A → Type 0
KeepsBacked m = Triple J (Keeping J) J m

module _ {A B : Type 0} where
  pub and_then :
      (m : Action A) (f : A → Action B)
      → KeepsBacked m
      → ((a : A) → KeepsBacked (f a))
      → KeepsBacked (m >>= f)
  and_then m f t k = Triple-bind J (Keeping J) (Keeping J) J m f t k

pub checked : (b : Bool) (e : Error) → KeepsBacked (require b e)
checked b e =
    Triple-map J (λ _ d s. (b ≡ true) × J d s) J _ _ (λ _ _ _ h. h.1) (Triple-require J J same b e)

returned : {A : Type 0} (a : A) → KeepsBacked (pure a)
returned a = Triple-pure J (Keeping J) J a same

pub nothing : KeepsBacked done
unfolding done
nothing = returned tt

module _ (answer : List Message → Answer) (text : Error → String)
    (filled : (e : Error) → str_eq (text e) "" ≡ false) where
  after_publication-Triple :
      (i b : Ident) (x : String) (c : Cid) (r : Result (Unit {0}))
      → Triple (OnOk J J (λ _. Delivered i b x c) r) (Keeping J) J (
          save_delivery text i b c r
          >> (logged (publish (Message.proposal_cid_delivered i x b c (cause_of text r)))
              >> lift r))
  after_publication-Triple i b x c (ok t) =
      Triple-bind (Delivered i b x c) (λ _. Delivered i b x c) (Keeping J) J _ _
        (Triple-error _ (Delivered i b x c) J _ _ (λ d s h. h.0)
          (save_delivery-Triple (λ s. Backed s × IsSent i b x c s) text i b c (ok t)))
        λ _.
          Triple-bind (Delivered i b x c) (Keeping J) (Keeping J) J _ _
            (Triple-logged (Delivered i b x c) J _ (
              Triple-publish (Delivered i b x c) J (λ d s h. h.0) (Keeping J)
                (Message.proposal_cid_delivered i x b c "")
                λ d s h.
                  Backed-append s (Message.proposal_cid_delivered i x b c "")
                    (λ _. exists_row-append (is_proposal i b x c) s _ h.1) h.0))
            λ _. Triple-lift J (Keeping J) J (ok t) (λ _ _ _ _ h. h) same
  after_publication-Triple i b x c (err e) =
      and_then _ _ (save_delivery-Triple Backed text i b c (err e)) λ _.
        and_then _ _
          (Triple-logged J J _ (
            Triple-publish J J same (Keeping J) (Message.proposal_cid_delivered i x b c (text e))
              λ d s h.
                Backed-append s (Message.proposal_cid_delivered i x b c (text e))
                  (λ n. ground (arith, n, filled e)) h))
          λ _. Triple-lift J (Keeping J) J (err e) (λ _ _ _ _ h. h) same
  after_publication-Triple i b x c panicked =
      and_then _ _ (save_delivery-Triple Backed text i b c panicked) λ _.
        and_then _ _
          (Triple-logged J J _ (
            Triple-publish J J same (Keeping J)
              (Message.proposal_cid_delivered i x b c (text unavailable))
              λ d s h.
                Backed-append s (Message.proposal_cid_delivered i x b c (text unavailable))
                  (λ n. ground (arith, n, filled unavailable)) h))
          λ _. Triple-lift J (Keeping J) J panicked (λ _ _ _ _ h. h) same

  pub deliver-Triple :
      (i b : Ident) (bid : Bid) (c : Cid) → KeepsBacked (deliver answer text i b bid c)
  unfolding deliver
  deliver-Triple i b bid c =
      Triple-bind J (OnOk J J (λ _. Delivered i b bid.bidder_id c)) (Keeping J) J _ _
        (caught-Triple answer i b bid.bidder_id c)
        λ r. after_publication-Triple i b bid.bidder_id c r

  pub deliver_boost-Triple :
      (i b : Ident) (bid : Bid) (uid : String) → KeepsBacked (deliver_boost answer text i b bid uid)
  unfolding deliver_boost
  deliver_boost-Triple i b bid uid =
      and_then _ _
        (Triple-caught J J _ (
          Triple-map J (λ _. Delivered i b bid.bidder_id uid) J _ _ (λ _ _ _ h. h.0)
            (publish_proposal-Triple answer i b bid.bidder_id uid)))
        λ r.
          and_then _ _ (save_delivery-Triple Backed text i b uid r)
            λ _. Triple-lift J (Keeping J) J r (λ _ _ _ _ h. h) same

module _ (k : Codec) where
  proposal_of-Triple : (o : Option String) → KeepsBacked (proposal_of k o)
  unfolding proposal_of
  proposal_of-Triple none = returned _
  proposal_of-Triple (some t) =
      Triple-if J (Keeping J) J (k.is_uuid t) _ _ (λ _. returned _)
        (λ _. and_then _ _ (checked _ _) (λ _. returned _))

  bid_from_db-Triple : (r : BidRow) → KeepsBacked (bid_from_db k r)
  unfolding bid_from_db
  bid_from_db-Triple r =
      and_then _ _ (checked _ _)
        λ _. and_then _ _ (proposal_of-Triple r.proposal_cid) λ p. returned _

  with_bids-Triple : (rs : List BidRow) (a : Auction) → KeepsBacked (with_bids k rs a)
  unfolding with_bids
  with_bids-Triple [] a = returned a
  with_bids-Triple (r ∷ rs) a =
      and_then _ _ (bid_from_db-Triple r) λ b. with_bids-Triple rs (with_bid b a)

  check_addrs-Triple : (ss : List String) → KeepsBacked (check_addrs k ss)
  unfolding check_addrs
  check_addrs-Triple [] = nothing
  check_addrs-Triple (s ∷ ss) = and_then _ _ (checked _ _) λ _. check_addrs-Triple ss

  auction_from_db-Triple : (a : AuctionRow) → KeepsBacked (auction_from_db k a)
  unfolding auction_from_db
  auction_from_db-Triple a = and_then _ _ (checked _ _) λ _. and_then _ _ (checked _ _) λ _.
      and_then _ _ (checked _ _) λ _.
        and_then _ _
          (Triple-if J (Keeping J) J (str_eq a.car_ipfs_cid "") _ _ (λ _. nothing)
            (λ _. check_addrs-Triple a.car_ipfs_addrs))
          λ _. and_then _ _ (checked _ _) λ _. returned _

  get_auction-Triple : (i : Ident) → KeepsBacked (get_auction k i)
  unfolding get_auction
  get_auction-Triple i = Triple-with_tx Backed _ (
      and_then _ _ (Triple-query Backed _) λ row.
        and_then _ _ (auction_from_db-Triple row)
          λ a. and_then _ _ (Triple-query Backed _) λ rows. with_bids-Triple rows a)

  pub get_bid-Triple : (i b : Ident) → KeepsBacked (get_finalized_auction_bid k i b)
  unfolding get_finalized_auction_bid
  get_bid-Triple i b = and_then _ _ (get_auction-Triple i) λ a. and_then _ _ (checked _ _) λ _.
      and_then _ _ (checked _ _)
        λ _. Triple-lift J (Keeping J) J (find_bid b a.bids) (λ _ _ _ _ h. h) same
