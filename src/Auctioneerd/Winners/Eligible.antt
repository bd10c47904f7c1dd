-- ===== src/Auctioneerd/Winners/Eligible.antt =====
-- The bids that may win an auction, in one condition, and that selectWinners's filters leave just these.
use broker_core.Base.{
  ℕ, ◌+◌, ◌-◌, ◌<◌, ◌≤◌, ◌≡◌, ◌∙◌, refl, Bool, true, false, List, [], ◌∷◌, ◌||◌, ◌&&◌, not, ltb,
  str_eq, contains, Bool-cases, inl, inr, leb-cases, arith,
}
use broker_core.Base.Rows.{select, exists_row}
use broker_core.Effects.{Result, ok, err}
use broker_core.Brokerd.Types.{Ident}
use broker_core.Auctioneerd.Heap.{Heap}
use broker_core.Auctioneerd.Types.{Auction, Bid, WinningBid, is_zero, price_of}
use broker_core.Auctioneerd.Search
use broker_core.Auctioneerd.Search.Agrees.{is_targeted-contains}
use broker_core.Auctioneerd.Sorter
use broker_core.Auctioneerd.Winners.{
  Market, is_nil, has_zero_price, has_slack, among_targeted, candidates, insufficient_bids,
}

-- The price is zero; if the auction has a deadline and no targeted providers, the provider has been
-- putting deals on chain within the time that is left; and if it has targeted providers, the provider is
-- one of them.
unfoldable pub eligible : Market → ℕ → Auction → Bid → Bool
eligible m current a b =
    is_zero (price_of a b)
    && ((not (is_nil a.providers && ltb 0 a.fil_epoch_deadline)
          || ltb (current + m.on_chain_epoches b.storage_provider_id) a.fil_epoch_deadline)
        && (is_nil a.providers || contains a.providers b.storage_provider_id))

and_false : (b : Bool) → (b && false) ≡ false
and_false b = ground arith

module _ {A : Type 0} where
  select-select :
      (p q : A → Bool) (xs : List A) → select p (select q xs) ≡ select (λ x. q x && p x) xs
  unfolding select
  select-select p q [] = refl
  select-select p q (x ∷ xs) = ground (arith, select-select p q xs)

  select-ext : (p q : A → Bool) (xs : List A) → ((x : A) → p x ≡ q x) → select p xs ≡ select q xs
  unfolding select
  select-ext p q [] h = refl
  select-ext p q (x ∷ xs) h = ground (arith, h x, select-ext p q xs h)

  select-none : (p : A → Bool) (xs : List A) → ((x : A) → p x ≡ false) → select p xs ≡ []
  unfolding select
  select-none p [] h = refl
  select-none p (x ∷ xs) h = ground (arith, h x, select-none p xs h)

abbrev pub has_id : Ident → Bid → Bool
has_id i b = str_eq b.id i

-- The entry is that of the bid.
abbrev pub is_entry : Ident × WinningBid → Bid → Bool
is_entry e b = str_eq b.id e.0 && str_eq b.bidder_id e.1.bidder_id

module _ (m : Market) (current : ℕ) (a : Auction) (bids : List Bid) where
  abbrev pub able : List Bid
  able = select (eligible m current a) bids

  -- The entry is that of an eligible bid.
  abbrev pub IsWinner : Ident × WinningBid → Type 0
  IsWinner e = exists_row (λ b. eligible m current a b && is_entry e b) bids ≡ true

module _ (m : Market) (current : ℕ) (a : Auction) where
  zero_price : (b : Bid) → has_zero_price a b ≡ is_zero (price_of a b)
  unfolding has_zero_price
  zero_price b = elim (Bool-cases a.deal_verified) [
    | inl e ↦ rw e refl
    | inr e ↦ rw e (ground arith)
  ]

  shifted :
      (x : ℕ)
      → current < a.fil_epoch_deadline
      → ltb x (a.fil_epoch_deadline - current) ≡ ltb (current + x) a.fil_epoch_deadline
  shifted x l = ground arith

  late : (x : ℕ) → a.fil_epoch_deadline ≤ current → ltb (current + x) a.fil_epoch_deadline ≡ false
  late x l = ground arith

  untargeted :
      (b : Bid)
      → is_nil a.providers ≡ true
      → ltb 0 a.fil_epoch_deadline ≡ false
      → has_zero_price a b ≡ eligible m current a b
  unfolding eligible
  untargeted b n d = rw (n, d) (zero_price b ∙ ground arith)

  with_slack :
      (b : Bid)
      → is_nil a.providers ≡ true
      → ltb 0 a.fil_epoch_deadline ≡ true
      → current < a.fil_epoch_deadline
      → (has_zero_price a b && has_slack m (a.fil_epoch_deadline - current) b)
        ≡ eligible m current a b
  unfolding eligible has_slack
  with_slack b n d l =
      rw (n, d, zero_price b, shifted (m.on_chain_epoches b.storage_provider_id) l) (ground arith)

  targeted :
      (b : Bid)
      → is_nil a.providers ≡ false
      → (has_zero_price a b && Search.is_targeted (Search.sort a.providers) b.storage_provider_id)
        ≡ eligible m current a b
  unfolding eligible
  targeted b n = rw (n, zero_price b, is_targeted-contains a.providers b.storage_provider_id) refl

  too_late :
      (b : Bid)
      → is_nil a.providers ≡ true
      → ltb 0 a.fil_epoch_deadline ≡ true
      → a.fil_epoch_deadline ≤ current
      → eligible m current a b ≡ false
  unfolding eligible
  too_late b n d l = rw (n, d, late (m.on_chain_epoches b.storage_provider_id) l) (ground arith)

  -- What the filters leave, or that none of the bids may win.
  pub data Filtered (bids : List Bid) : Result (Heap Bid) → Type 0 where
    left : (h : Heap Bid) → h.items ≡ select (eligible m current a) bids → Filtered bids (ok h)
    none_left : select (eligible m current a) bids ≡ [] → Filtered bids (err insufficient_bids)

  pub candidates-Filtered : (bids : List Bid) → Filtered bids (candidates m current a bids)
  unfolding candidates among_targeted Sorter.select_bids
  candidates-Filtered bids = elim (Bool-cases (is_nil a.providers)) [
    | inr n ↦
        rw (n, and_false (ltb 0 a.fil_epoch_deadline))
          (Filtered.left _
            (select-select _ (has_zero_price a) bids ∙ select-ext _ _ bids (λ b. targeted b n)))
    | inl n ↦ elim (Bool-cases (ltb 0 a.fil_epoch_deadline)) [
      | inr d ↦ rw (n, d) (Filtered.left _ (select-ext _ _ bids (λ b. untargeted b n d)))
      | inl d ↦ elim (leb-cases a.fil_epoch_deadline current) [
        | inl (e, l) ↦
            rw (n, d, e) (Filtered.none_left (select-none _ bids (λ b. too_late b n d l)))
        | inr (e, l) ↦
            rw (n, d, e)
              (Filtered.left _ (
                select-select _ (has_zero_price a) bids
                ∙ select-ext _ _ bids (λ b. with_slack b n d l)))
      ]
    ]
  ]
