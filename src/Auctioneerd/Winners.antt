-- ===== src/Auctioneerd/Winners.antt =====
-- selectWinners and selectOneWinner of cmd/auctioneerd/auctioneer/auctioneer.go. A loop out of fuel
-- panics, as an index out of range does.
pub mod Eligible
pub mod One
pub mod Rounds
pub mod Elected
pub mod Sends
use broker_core.Base.{
  ℕ, zero, suc, ◌+◌, ◌-◌, ◌*◌, ◌/◌, ◌%◌, ◌^◌, String, Bool, true, false, Option, none, some, List,
  [], ◌∷◌, ◌||◌, ◌&&◌, not, ltb, leb, nat_eq, str_eq, if◌then◌else◌, length, contains,
}
use broker_core.Base.Maps.{put}
use broker_core.Effects.{
  Error, message, Result, ok, err, panicked, Exec, pure, raise, panic, gets, lift, publish, logged,
  succeeds, ◌>>=◌, ◌>>◌,
}
use broker_core.Brokerd.Types.{Ident, undef}
use broker_core.Auctioneerd.Heap.{Heap, len}
use broker_core.Auctioneerd.Types.{Auction, Bid, WinningBid, is_zero, price_of}
use broker_core.Auctioneerd.Events.{Message, summary, bid_to_pb}
use broker_core.Auctioneerd.Schema.{Db}
use broker_core.Auctioneerd.Search
use broker_core.Auctioneerd.Sorter
use broker_core.Auctioneerd.Sorter.{Iter}

abbrev pub Action : Type 0 → Type 0
Action A = Exec Db Message A

-- The rates that the auctioneer has loaded, where a provider that is not in a table has the rate zero, and
-- the random numbers.
pub record Market : Type 0 where
  pub coin : ℕ → ℕ
  pub failure_rates : String → ℕ
  pub winning_rates : String → ℕ
  pub on_chain_epoches : String → ℕ

-- ErrInsufficientBids
abbrev pub insufficient_bids : Error
insufficient_bids = message "insufficient bids"

abbrev pub is_nil : List String → Bool
is_nil [] = true
is_nil (x ∷ xs) = false

-- filecoinGenesisUnixEpoch
abbrev pub genesis : ℕ
genesis = 1598306400

-- currentFilEpoch; before the genesis the conversion to uint64 wraps around.
unfoldable pub current_fil_epoch : ℕ → ℕ
current_fil_epoch now =
    let s = now / 10 ^ 9 in
    if leb genesis s then (s - genesis) / 30 else (2 ^ 64 - (genesis - s) / 30) % 2 ^ 64

-- consider only bids with zero price for now.
unfoldable pub has_zero_price : Auction → Bid → Bool
has_zero_price a b =
    (not a.deal_verified && is_zero b.ask_price)
    || (a.deal_verified && is_zero b.verified_ask_price)

unfoldable pub has_slack : Market → ℕ → Bid → Bool
has_slack m window b = ltb (m.on_chain_epoches b.storage_provider_id) window

-- The filter by the providers that the auction is targeting.
unfoldable pub among_targeted : Auction → Heap Bid → Heap Bid
among_targeted a h =
    let sorted = Search.sort a.providers in
    let chosen = Sorter.select_bids (λ b. Search.is_targeted sorted b.storage_provider_id) h in
    if is_nil a.providers then h else chosen

-- The first part of selectWinners: the bids that may win.
unfoldable pub candidates : Market → ℕ → Auction → List Bid → Result (Heap Bid)
candidates m current a bids =
    let priced = Sorter.select_bids (has_zero_price a) (record { items = bids; draws = 0 }) in
    let slack = Sorter.select_bids (has_slack m (a.fil_epoch_deadline - current)) priced in
    if ltb 0 a.fil_epoch_deadline && is_nil a.providers
    then (if leb a.fil_epoch_deadline current
        then err insufficient_bids
        else ok (among_targeted a slack))
    else ok (among_targeted a priced)

abbrev pub top_n : ℕ → ℕ
top_n n = if ltb (n / 5) 5 then 5 else n / 5

abbrev pub or_panic : {A : Type 0} → Option A → Result A
or_panic none = panicked
or_panic (some a) = ok a

-- One turn of the loop of selectOneWinner; `again` is the next one.
unfoldable pub offer :
    Auction
    → Action (Option Bid × Heap Bid)
    → Option Bid
    → Heap Bid
    → Action (Option Bid × Heap Bid)
offer a again none h = pure (none, h)
offer a again (some b) h = do
  logged (publish (Message.winner_selected (summary a) (bid_to_pb b)))
  won ← succeeds (publish (Message.win a.id b.id b.bidder_id a.sources))
  if won then pure (some b, h) else again

-- selectOneWinner
unfoldable pub select_one_winner :
    ℕ → (ℕ → ℕ) → Auction → Iter → Heap Bid → Action (Option Bid × Heap Bid)
select_one_winner zero coin a it h = panic
select_one_winner (suc k) coin a it h = do
  r ← lift (or_panic (Sorter.next coin it h))
  offer a (select_one_winner k coin a r.1 r.2) r.0 r.2

-- The switch on the number of the round.
abbrev pub rates_of : Market → ℕ → String → ℕ
rates_of m i = if nat_eq i 1 then m.winning_rates else m.failure_rates

unfoldable pub start_round : Market → ℕ → ℕ → Heap Bid → Option (Iter × Heap Bid)
start_round m top i h = elim (ltb i 4) [
  | true ↦ Sorter.random_top_n top (Sorter.lower_provider_rate (rates_of m i)) h
  | false ↦ Sorter.start_random m.coin h
]

abbrev pub winning_reason : ℕ → String
winning_reason i =
    if ltb i 4 then (if nat_eq i 1 then "low recent wins" else "low recent failures") else "random"

unfoldable pub one_round : Market → Auction → ℕ → ℕ → Heap Bid → Action (Option Bid × Heap Bid)
one_round m a top i h = do
  s ← lift (or_panic (start_round m top i h))
  select_one_winner (len h + 1) m.coin a s.0 s.1

abbrev pub winning_bid : ℕ → Bid → WinningBid
winning_bid i b = record {
  bidder_id = b.bidder_id;
  proposal_cid = undef;
  deal_uid = "";
  winning_reason = winning_reason i;
  error_cause = "";
}

-- What a round makes of its winner, if there is one; `again` is the next round.
unfoldable pub settle :
    Auction
    → ℕ
    → List (Ident × WinningBid)
    → (List (Ident × WinningBid) → Action (List (Ident × WinningBid)))
    → Option Bid
    → Action (List (Ident × WinningBid))
settle a i ws again (some b) = do
  logged (publish (Message.winner_acked (summary a) (bid_to_pb b)))
  again (put b.id (winning_bid i b) ws)
settle a i ws again none = if ltb i 4 then again ws else raise insufficient_bids

-- The loop of selectWinners.
unfoldable pub rounds :
    ℕ
    → Market
    → Auction
    → ℕ
    → ℕ
    → List (Ident × WinningBid)
    → Heap Bid
    → Action (List (Ident × WinningBid))
rounds zero m a top i ws h = panic
rounds (suc k) m a top i ws h = elim (ltb (length ws) a.deal_replication) [
  | false ↦ pure ws
  | true ↦ do r ← one_round m a top i h; settle a i ws (λ ws'. rounds k m a top (i + 1) ws' r.1) r.0
]

-- selectWinners. Four rounds may end without a winner, and each other round takes a candidate or is
-- the last.
unfoldable pub select_winners : Market → Auction → List Bid → Action (List (Ident × WinningBid))
select_winners m a bids = do
  now ← gets (λ w. w.now)
  h ← lift (candidates m (current_fil_epoch now) a bids)
  rounds (len h + 5) m a (top_n (len h)) 0 [] h
