-- ===== src/Auctioneerd/Winners/Elected.antt =====
-- What selectWinners returns.
use broker_core.Base.{ℕ, ◌+◌, ◌<◌, ◌≤◌, ◌≡◌, refl, Bool, true, false, List, [], length, All, arith}
use broker_core.Base.Rows.{count_rows}
use broker_core.Effects.{Result, ok, err, panicked, World, lift, ◌>>=◌}
use broker_core.Effects.Calm.{gets-then}
use broker_core.Effects.Ends.{Verdict, Quiet}
use broker_core.Brokerd.Types.{Ident}
use broker_core.Auctioneerd.Types.{Auction, Bid, WinningBid}
use broker_core.Auctioneerd.Events.{Message}
use broker_core.Auctioneerd.Schema.{Db}
use broker_core.Auctioneerd.Heap.{len}
use broker_core.Auctioneerd.Winners.{
  Market, select_winners, candidates, rounds, top_n, current_fil_epoch, insufficient_bids,
}
use broker_core.Auctioneerd.Winners.Eligible.{able, IsWinner, has_id, candidates-Filtered}
use broker_core.Auctioneerd.Winners.Rounds.{filtered-Ends, Elects, Lacks}

-- As many winners as the deal needs replicas, each the entry of an eligible bid, or the one error.
abbrev pub Elected : Market → ℕ → Auction → List Bid → Result (List (Ident × WinningBid)) → Type 0
Elected m current a bids (ok ws) =
    (length ws ≡ a.deal_replication) × All (IsWinner m current a bids) ws
Elected m current a bids (err e) = e ≡ insufficient_bids
Elected m current a bids panicked = ⊥

select_winners-Verdict :
    (c : Bool) (m : Market) (a : Auction) (bids : List Bid) (w : World Db Message)
    → (c ≡ true → (i : Ident) → count_rows (has_id i) (able m (current_fil_epoch w.now) a bids) ≤ 1)
    → (c ≡ true → 0 < a.deal_replication)
    → Quiet c w
    → Verdict c
        (Elects c m (current_fil_epoch w.now) a bids)
        (Lacks c m (current_fil_epoch w.now) a bids)
        (select_winners m a bids w)
unfolding select_winners
select_winners-Verdict c m a bids w d l q =
    rw
      (gets-then (λ v. v.now)
        (λ now. lift (candidates m (current_fil_epoch now) a bids) >>= λ h.
          rounds (len h + 5) m a (top_n (len h)) 0 [] h)
        w)
      ((filtered-Ends c m (current_fil_epoch w.now) a bids _
          (candidates-Filtered m (current_fil_epoch w.now) a bids) d l).at
        w q)

Verdict-Elected :
    (m : Market) (current : ℕ) (a : Auction) (bids : List Bid)
    (r : Result (List (Ident × WinningBid)) × World Db Message)
    → Verdict false (Elects false m current a bids) (Lacks false m current a bids) r
    → Elected m current a bids r.0
Verdict-Elected m current a bids (ok ws, w) h = h.0
Verdict-Elected m current a bids (err e, w) h = h.0
Verdict-Elected m current a bids (panicked, w) h = h

-- For any random numbers and any failures, the selection of the winners of an auction ends without a
-- panic. It gives as many winners as the deal needs replicas, each the entry of a bid of the auction
-- that is eligible, or else the error that there are not enough bids.
pub select_winners-Elected :
    (m : Market) (a : Auction) (bids : List Bid) (w : World Db Message)
    → Elected m (current_fil_epoch w.now) a bids (select_winners m a bids w).0
select_winners-Elected m a bids w =
    Verdict-Elected m (current_fil_epoch w.now) a bids (select_winners m a bids w)
      (select_winners-Verdict false m a bids w (λ e. cc) (λ e. cc) (λ e. cc))

Verdict-enough :
    (m : Market) (current : ℕ) (a : Auction) (bids : List Bid)
    (r : Result (List (Ident × WinningBid)) × World Db Message)
    → a.deal_replication ≤ length (able m current a bids)
    → Verdict true (Elects true m current a bids) (Lacks true m current a bids) r
    → (ws : List (Ident × WinningBid)) × (r.0 ≡ ok ws) × (length ws ≡ a.deal_replication)
Verdict-enough m current a bids (ok ws, w) n h = (ws, refl, h.0.0)
Verdict-enough m current a bids (err e, w) n h = absurd (omega (arith, h.1 refl))
Verdict-enough m current a bids (panicked, w) n h = absurd h

-- If no message fails, the eligible bids have different ids and there are at least as many of them as
-- the deal needs replicas, and that is one or more, the auction succeeds: it has so many winners.
pub select_winners-enough :
    (m : Market) (a : Auction) (bids : List Bid) (w : World Db Message)
    → w.faults ≡ []
    → 0 < a.deal_replication
    → ((i : Ident) → count_rows (has_id i) (able m (current_fil_epoch w.now) a bids) ≤ 1)
    → a.deal_replication ≤ length (able m (current_fil_epoch w.now) a bids)
    → (ws : List (Ident × WinningBid)) × ((select_winners m a bids w).0 ≡ ok ws)
      × (length ws ≡ a.deal_replication)
select_winners-enough m a bids w q l d n =
    Verdict-enough m (current_fil_epoch w.now) a bids (select_winners m a bids w) n
      (select_winners-Verdict true m a bids w (λ _. d) (λ _. l) (λ _. q))
