-- ===== src/Auctioneerd/Winners/One.antt =====
-- One round of the selection: selectOneWinner ends, and takes at least its winner from the candidates.
use broker_core.Base.{
  ℕ, zero, suc, ◌+◌, ◌<◌, ◌≤◌, ◌≡◌, Bool, true, false, Option, none, some, if◌then◌else◌, ltb-cases,
  arith, inl, inr, Bool-cases,
}
use broker_core.Base.Rows.{count_rows}
use broker_core.Effects.{Error, pure}
use broker_core.Effects.Ends.{
  Ends, Ends-pure, Ends-map, Ends-bind, Ends-lift_ok, Ends-logged-publish, Ends-succeeds-publish,
}
use broker_core.Auctioneerd.Heap.{Heap, len}
use broker_core.Auctioneerd.Heap.Counts.{one_if, Same-len, Took}
use broker_core.Auctioneerd.Types.{Auction, Bid}
use broker_core.Auctioneerd.Sorter.{Iter}
use broker_core.Auctioneerd.Sorter.Takes.{
  left, Fits, Nexts, Starts, next-some, random_top_n-some, start_random-some,
}
use broker_core.Auctioneerd.Winners.{
  Market, Action, offer, select_one_winner, start_round, one_round,
}

-- What selectOneWinner returns from `n` bids that the iterator has left. With `c` true no message fails.
pub data Picked (c : Bool) (n : ℕ) (h : Heap Bid) : Option Bid × Heap Bid → Type 0 where
  nobody :
      (h' : Heap Bid)
      → ((p : Bid → Bool) → count_rows p h'.items ≤ count_rows p h.items)
      → (c ≡ true → n ≡ 0)
      → Picked c n h (none, h')
  somebody :
      (b : Bid) (h' : Heap Bid)
      → ((p : Bid → Bool) → one_if (p b) + count_rows p h'.items ≤ count_rows p h.items)
      → (c ≡ true → Took h b h')
      → Picked c n h (some b, h')

-- Bids of a later turn are bids of this one.
Picked-later :
    (c : Bool) (n n' : ℕ) (h h' : Heap Bid) (r : Option Bid × Heap Bid)
    → (c ≡ false)
    → ((p : Bid → Bool) → count_rows p h'.items ≤ count_rows p h.items)
    → Picked c n' h' r
    → Picked c n h r
Picked-later c n n' h h' r e s (Picked.nobody h2 k z) =
    Picked.nobody h2 (λ p. omega (arith, s p, k p)) (λ t. cc)
Picked-later c n n' h h' r e s (Picked.somebody b h2 k z) =
    Picked.somebody b h2 (λ p. omega (arith, s p, k p)) (λ t. cc)

calm_wins : {c : Bool} → (c ≡ true → false ≡ true) → c ≡ false
calm_wins {c} q = elim (Bool-cases c) [ inl e ↦ let n = q e in cc | inr e ↦ e ]

offer-Ends :
    (c : Bool) (E : Error → Type 0) (a : Auction) (again : Action (Option Bid × Heap Bid))
    (it : Iter) (h : Heap Bid) (o : Option Bid) (it' : Iter) (h' : Heap Bid)
    → Nexts it h o it' h'
    → (Fits it' h' → left it' h' < left it h → Ends c (Picked c (left it' h') h') E again)
    → Ends c (Picked c (left it h) h) E (offer a again o h')
unfolding offer
offer-Ends c E a again it h o it' h' (Nexts.ended it2 e) k =
    Ends-pure c (Picked c (left it h) h) E (none, h) (Picked.nobody h (λ p. omega arith) (λ _. e))
offer-Ends c E a again it h o it' h' (Nexts.took b it2 h2 t l f) k =
    Ends-bind c _ _ E _ _ (Ends-logged-publish c E _)
      λ _ _. Ends-bind c _ _ E _ _ (Ends-succeeds-publish c E _) λ won q. unless_won won q
  where
    unless_won :
        (won : Bool)
        → (c ≡ true → won ≡ true)
        → Ends c (Picked c (left it h) h) E (if won then pure (some b, h') else again)
    unless_won true q =
        Ends-pure c (Picked c (left it h) h) E (some b, h2)
          (Picked.somebody b h2 (λ p. omega (arith, t.counts p)) (λ _. t))
    unless_won false q =
        Ends-map c (Picked c (left it2 h2) h2) (Picked c (left it h) h) E again
          (λ r.
            Picked-later c (left it h) (left it2 h2) h h2 r (calm_wins q)
              (λ p. omega (arith, t.counts p)))
          (k f (omega arith))

pub select_one_winner-Ends :
    (c : Bool) (E : Error → Type 0) (k : ℕ) (coin : ℕ → ℕ) (a : Auction) (it : Iter) (h : Heap Bid)
    → Fits it h
    → left it h < k
    → Ends c (Picked c (left it h) h) E (select_one_winner k coin a it h)
unfolding select_one_winner
select_one_winner-Ends c E zero coin a it h f l = absurd (omega arith)
select_one_winner-Ends c E (suc k) coin a it h f l =
    let (o, it', h', q, s) = next-some coin it h f in
    rw (select_one_winner, q)
      (Ends-lift_ok c _ E (o, it', h') (λ r. offer a (select_one_winner k coin a r.1 r.2) r.0 r.2)
        (offer-Ends c E a (select_one_winner k coin a it' h') it h o it' h' s
          (λ f' l'. select_one_winner-Ends c E k coin a it' h' f' (omega arith))))

start_round-some :
    (m : Market) (top i : ℕ) (h : Heap Bid)
    → 0 < top
    → (it : Iter) × (h' : Heap Bid) × (start_round m top i h ≡ some (it, h')) × Starts it h h'
unfolding start_round
start_round-some m top i h t = elim (ltb-cases i 4) [
  | inl (e, _) ↦ rw (start_round, e) (random_top_n-some top _ h t)
  | inr (e, _) ↦ rw (start_round, e) (start_random-some m.coin h)
]

left-len : (it : Iter) (h : Heap Bid) → Fits it h → left it h ≤ len h
left-len (Iter.top cmp n) h f = f
left-len Iter.random h f = omega arith

Picked-earlier :
    (c : Bool) (it : Iter) (h h' : Heap Bid) (r : Option Bid × Heap Bid)
    → Starts it h h'
    → Picked c (left it h') h' r
    → Picked c (len h) h r
Picked-earlier c it h h' r s (Picked.nobody h2 k z) =
    Picked.nobody h2 (λ p. omega (arith, s.same.counts p, k p)) (λ t. s.some_left (z t))
Picked-earlier c it h h' r s (Picked.somebody b h2 k z) =
    Picked.somebody b h2 (λ p. omega (arith, s.same.counts p, k p))
      (λ t. record { counts = λ p. omega (arith, s.same.counts p, (z t).counts p) })

pub one_round-Ends :
    (c : Bool) (E : Error → Type 0) (m : Market) (a : Auction) (top i : ℕ) (h : Heap Bid)
    → 0 < top
    → Ends c (Picked c (len h) h) E (one_round m a top i h)
unfolding one_round
one_round-Ends c E m a top i h t =
    let (it, h', q, s) = start_round-some m top i h t in
    rw q (
      Ends-lift_ok c _ E (it, h') (λ r. select_one_winner (len h + 1) m.coin a r.0 r.1)
        (Ends-map c (Picked c (left it h') h') _ E _ (λ r. Picked-earlier c it h h' r s)
          (select_one_winner-Ends c E (len h + 1) m.coin a it h' s.fits
            (omega (arith, left-len it h' s.fits, Same-len h h' s.same)))))
