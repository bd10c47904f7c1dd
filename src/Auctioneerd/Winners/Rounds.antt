-- ===== src/Auctioneerd/Winners/Rounds.antt =====
-- selectWinners as a whole: who wins, and when there are enough winners.
use broker_core.Base.{
  ℕ, zero, suc, ◌+◌, ◌-◌, ◌<◌, ◌≤◌, ◌≡◌, refl, Bool, true, false, Option, List, [], ◌∷◌, ◌&&◌,
  ltb-cases, str_eq, eq_refl, length, All, arith, inl, inr, Bool-cases,
}
use broker_core.Base.Rows.{select, exists_row, count_rows}
use broker_core.Base.Maps.{put, has_key, length-put, length-put_new, All-put}
use broker_core.Effects.{Error, Result, lift, ◌>>=◌}
use broker_core.Effects.Ends.{
  Ends, Ends-pure, Ends-raise, Ends-bind, Ends-lift_ok, Ends-lift_err, Ends-logged-publish,
}
use broker_core.Brokerd.Types.{Ident}
use broker_core.Auctioneerd.Heap.{Heap, len}
use broker_core.Auctioneerd.Heap.Counts.{one_if, Took, Took-len, count_rows-length}
use broker_core.Auctioneerd.Types.{Auction, Bid, WinningBid}
use broker_core.Auctioneerd.Winners.{
  Market, Action, rounds, settle, one_round, top_n, winning_bid, insufficient_bids,
}
use broker_core.Auctioneerd.Winners.Eligible.{eligible, able, IsWinner, has_id, is_entry, Filtered}
use broker_core.Auctioneerd.Winners.One.{Picked, one_round-Ends}

exists-entry :
    (p q : Bid → Bool) (bs : List Bid)
    → 0 < count_rows q (select p bs)
    → exists_row (λ b. p b && q b) bs ≡ true
unfolding count_rows select exists_row
exists-entry p q [] h = absurd (omega arith)
exists-entry p q (b ∷ bs) h = elim (Bool-cases (p b)) [
  | inr n ↦ rw n (exists-entry p q bs (rw n at h))
  | inl t ↦ elim (Bool-cases (q b)) [
    | inl u ↦ rw (t, u) refl
    | inr u ↦ let k = rw (t, u) at h in rw (t, u) (exists-entry p q bs (omega arith))
  ]
]

has_key-put :
    (i k : Ident) (v : WinningBid) (ws : List (Ident × WinningBid))
    → one_if (has_key i (put k v ws)) ≤ one_if (str_eq k i) + one_if (has_key i ws)
unfolding put exists_row
has_key-put i k v [] = ground arith
has_key-put i k v (e ∷ es) = elim (Bool-cases (str_eq e.0 k)) [
  | inl t ↦ rw t (ground arith)
  | inr n ↦ rw n (ground (arith, has_key-put i k v es))
]

module _ (c : Bool) (m : Market) (current : ℕ) (a : Auction) (bids : List Bid) where
  record Held (ws : List (Ident × WinningBid)) (h : Heap Bid) : Type 0 where
    pub few : length ws ≤ a.deal_replication
    pub from : (p : Bid → Bool) → count_rows p h.items ≤ count_rows p (able m current a bids)
    pub winners : All (IsWinner m current a bids) ws
    pub once : c ≡ true → (i : Ident) → count_rows (has_id i) h.items + one_if (has_key i ws) ≤ 1
    pub rest : c ≡ true → length (able m current a bids) ≤ length ws + len h

  abbrev pub Elects : List (Ident × WinningBid) → Type 0
  Elects ws = (length ws ≡ a.deal_replication) × All (IsWinner m current a bids) ws

  abbrev pub Lacks : Error → Type 0
  Lacks e =
      (e ≡ insufficient_bids) × (c ≡ true → length (able m current a bids) < a.deal_replication)

  IsWinner-took :
      (i : ℕ) (b : Bid) (h h' : Heap Bid)
      → ((p : Bid → Bool) → count_rows p h.items ≤ count_rows p (able m current a bids))
      → ((p : Bid → Bool) → one_if (p b) + count_rows p h'.items ≤ count_rows p h.items)
      → IsWinner m current a bids (b.id, winning_bid i b)
  IsWinner-took i b h h' f k =
      let e : Ident × WinningBid = (b.id, winning_bid i b) in
      let t : is_entry e b ≡ true = rw (eq_refl b.id, eq_refl b.bidder_id) refl in
      exists-entry (eligible m current a) (is_entry e) bids
        (ground (arith, f (is_entry e), k (is_entry e), t))

  new_key :
      (b : Bid) (ws : List (Ident × WinningBid)) (h h' : Heap Bid)
      → Took h b h'
      → count_rows (has_id b.id) h.items + one_if (has_key b.id ws) ≤ 1
      → has_key b.id ws ≡ false
  new_key b ws h h' t u = ground (arith, t.counts (has_id b.id), eq_refl b.id, u)

  Held-won :
      (i : ℕ) (b : Bid) (ws : List (Ident × WinningBid)) (h h' : Heap Bid)
      → Held ws h
      → length ws < a.deal_replication
      → ((p : Bid → Bool) → one_if (p b) + count_rows p h'.items ≤ count_rows p h.items)
      → (c ≡ true → Took h b h')
      → Held (put b.id (winning_bid i b) ws) h'
  Held-won i b ws h h' d l k t = record {
    few = omega (arith, length-put b.id (winning_bid i b) ws);
    from = λ p. omega (arith, d.from p, k p);
    winners =
        All-put (IsWinner m current a bids) b.id (winning_bid i b) ws
          (IsWinner-took i b h h' d.from k) d.winners;
    once = λ e j.
        omega (arith, d.once e j, (t e).counts (has_id j), has_key-put j b.id (winning_bid i b) ws);
    rest = λ e. omega (
      arith,
      d.rest e,
      Took-len h h' b (t e),
      length-put_new b.id (winning_bid i b) ws (new_key b ws h h' (t e) (d.once e b.id)),
    );
  }

  Held-none :
      (ws : List (Ident × WinningBid)) (h h' : Heap Bid)
      → Held ws h
      → ((p : Bid → Bool) → count_rows p h'.items ≤ count_rows p h.items)
      → (c ≡ true → len h ≡ 0)
      → Held ws h'
  Held-none ws h h' d k z = record {
    few = d.few;
    from = λ p. omega (arith, d.from p, k p);
    winners = d.winners;
    once = λ e j. omega (arith, d.once e j, k (has_id j));
    rest = λ e. omega (arith, d.rest e, z e);
  }

  settle-Ends :
      (i : ℕ) (ws : List (Ident × WinningBid)) (h : Heap Bid)
      (again : Heap Bid → List (Ident × WinningBid) → Action (List (Ident × WinningBid)))
      (r : Option Bid × Heap Bid)
      → Picked c (len h) h r
      → Held ws h
      → length ws < a.deal_replication
      → ((ws' : List (Ident × WinningBid))
          → Held ws' r.1
          → 4 - (i + 1) + len r.1 < 4 - i + len h
          → Ends c Elects Lacks (again r.1 ws'))
      → Ends c Elects Lacks (settle a i ws (again r.1) r.0)
  unfolding settle
  settle-Ends i ws h again r (Picked.somebody b h' k t) d l next =
      Ends-bind c _ _ Lacks _ _ (Ends-logged-publish c Lacks _) (λ _ _.
        next (put b.id (winning_bid i b) ws) (Held-won i b ws h h' d l k t)
          (shrinks (k (λ _. true))))
    where
      shrinks :
          1 + count_rows (λ _. true) h'.items ≤ count_rows (λ _. true) h.items
          → 4 - (i + 1) + len h' < 4 - i + len h
      shrinks q = omega (arith, q, count_rows-length h.items, count_rows-length h'.items)
  settle-Ends i ws h again r (Picked.nobody h' k z) d l next = elim (ltb-cases i 4) [
    | inl (e, g) ↦ rw e (
        next ws (Held-none ws h h' d k z)
          (omega (arith, k (λ _. true), count_rows-length h.items, count_rows-length h'.items)))
    | inr (e, g) ↦
        rw e (Ends-raise c Elects Lacks insufficient_bids (refl, λ t. omega (arith, d.rest t, z t)))
  ]

  rounds-Ends :
      (top : ℕ) (k i : ℕ) (ws : List (Ident × WinningBid)) (h : Heap Bid)
      → 0 < top
      → Held ws h
      → 4 - i + len h < k
      → Ends c Elects Lacks (rounds k m a top i ws h)
  unfolding rounds
  rounds-Ends top zero i ws h t d l = absurd (omega arith)
  rounds-Ends top (suc k) i ws h t d l = elim (ltb-cases (length ws) a.deal_replication) [
    | inr (e, g) ↦ rw (rounds, e) (Ends-pure c Elects Lacks ws (omega (arith, d.few), d.winners))
    | inl (e, g) ↦
        rw (rounds, e)
          (Ends-bind c _ Elects Lacks (one_round m a top i h) _
            (one_round-Ends c Lacks m a top i h t)
            (λ r p.
              settle-Ends i ws h (λ h' ws'. rounds k m a top (i + 1) ws' h') r p d g
                (λ ws' d' s. rounds-Ends top k (i + 1) ws' r.1 t d' (omega arith))))
  ]

  Held-first :
      (h : Heap Bid)
      → h.items ≡ (able m current a bids)
      → (c ≡ true → (i : Ident) → count_rows (has_id i) (able m current a bids) ≤ 1)
      → Held [] h
  unfolding exists_row
  Held-first h e d = record {
    few = omega arith;
    from = λ p. rw e (omega arith);
    winners = tt;
    once = λ t i. rw e (omega (arith, d t i));
    rest = λ t. rw e (omega arith);
  }

  pub filtered-Ends :
      (r : Result (Heap Bid))
      → Filtered m current a bids r
      → (c ≡ true → (i : Ident) → count_rows (has_id i) (able m current a bids) ≤ 1)
      → (c ≡ true → 0 < a.deal_replication)
      → Ends c Elects Lacks (lift r >>= λ h. rounds (len h + 5) m a (top_n (len h)) 0 [] h)
  filtered-Ends r (Filtered.left h e) d l =
      Ends-lift_ok c Elects Lacks h (λ h. rounds (len h + 5) m a (top_n (len h)) 0 [] h)
        (rounds-Ends (top_n (len h)) (len h + 5) 0 [] h (ground arith) (Held-first h e d)
          (omega arith))
  filtered-Ends r (Filtered.none_left e) d l =
      Ends-lift_err c Elects Lacks insufficient_bids
        (λ h. rounds (len h + 5) m a (top_n (len h)) 0 [] h) (refl, λ t. rw e (l t))
