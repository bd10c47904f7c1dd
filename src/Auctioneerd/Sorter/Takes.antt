-- ===== src/Auctioneerd/Sorter/Takes.antt =====
-- The iterators take one bid at a time from the candidates, without a panic, until there is none left.
use broker_core.Base.{
  ℕ, zero, suc, ◌+◌, ◌%◌, ◌<◌, ◌≤◌, ◌≡◌, refl, Bool, Option, none, some, List, [], ◌∷◌, arith,
}
use broker_core.Base.Rows.{count_rows}
use broker_core.Auctioneerd.Heap.{Heap, Cmp, len}
use broker_core.Auctioneerd.Heap.Counts.{Same, Same-len, Took, Took-len}
use broker_core.Auctioneerd.Heap.Ops.{init-some, pop-some, push-some, remove-some}
use broker_core.Auctioneerd.Types.{Bid}
use broker_core.Auctioneerd.Sorter.{
  Iter, random_top_n, start_random, pop_many, push_all, next_top, next_random, next, random_cmp,
}

-- `bs` have been taken from the heap.
record TookAll (h : Heap Bid) (bs : List Bid) (h' : Heap Bid) : Type 0 where
  pub counts : (p : Bid → Bool) → count_rows p h.items ≡ count_rows p bs + count_rows p h'.items

pop_many-some :
    (cmp : Cmp Bid) (i : ℕ) (h : Heap Bid)
    → i < len h
    → (bs : List Bid) × (h' : Heap Bid) × (pop_many cmp i h ≡ some (bs, h'))
      × (0 < len h')
      × TookAll h bs h'
unfolding pop_many count_rows
pop_many-some cmp zero h k = ([], h, refl, k, record { counts = λ p. omega arith })
pop_many-some cmp (suc i) h k =
    let (b, h1, q1, t) = pop-some cmp h (omega arith) in
    let l1 = Took-len h h1 b t in
    let (bs, h2, q2, l2, ts) = pop_many-some cmp i h1 (omega arith) in
    rw (q1, q2)
      (b ∷ bs, h2, refl, l2, record { counts = λ p. omega (arith, t.counts p, ts.counts p) })

push_all-some :
    (cmp : Cmp Bid) (bs : List Bid) (h : Heap Bid)
    → (h' : Heap Bid) × (push_all cmp bs h ≡ some h') × TookAll h' bs h
unfolding push_all count_rows
push_all-some cmp [] h = (h, refl, record { counts = λ p. omega arith })
push_all-some cmp (b ∷ bs) h =
    let (h1, q1, t) = push-some cmp b h in
    let (h2, q2, ts) = push_all-some cmp bs h1 in
    rw q1 (h2, q2, record { counts = λ p. omega (arith, t.counts p, ts.counts p) })

-- The number of bids that the iterator has still to give.
abbrev pub left : Iter → Heap Bid → ℕ
left (Iter.top cmp n) h = n
left Iter.random h = len h

abbrev pub Fits : Iter → Heap Bid → Type 0
Fits (Iter.top cmp n) h = n ≤ len h
Fits Iter.random h = Unit

-- What an iterator may return: nothing only when no bid is left, or else one of the candidates.
pub data Nexts (it : Iter) (h : Heap Bid) : Option Bid → Iter → Heap Bid → Type 0 where
  ended : (it' : Iter) → left it h ≡ 0 → Nexts it h none it' h
  took :
      (b : Bid) (it' : Iter) (h' : Heap Bid)
      → Took h b h'
      → left it h ≡ left it' h' + 1
      → Fits it' h'
      → Nexts it h (some b) it' h'

next_top-some :
    (coin : ℕ → ℕ) (cmp : Cmp Bid) (n : ℕ) (h : Heap Bid)
    → n ≤ len h
    → (o : Option Bid) × (it : Iter) × (h' : Heap Bid) × (next_top coin cmp n h ≡ some (o, it, h'))
      × Nexts (Iter.top cmp n) h o it h'
unfolding next_top
next_top-some coin cmp zero h k = (none, _, h, refl, Nexts.ended (Iter.top cmp 0) refl)
next_top-some coin cmp (suc n) h k =
    let h0 : Heap Bid = record h { draws = h.draws + 1 } in
    let (bs, h1, q1, l1, t1) = pop_many-some cmp (coin h.draws % suc n) h0 (omega arith) in
    let (b, h2, q2, t2) = pop-some cmp h1 l1 in
    let (h3, q3, t3) = push_all-some cmp bs h2 in
    let t : Took h b h3 = record {
      counts = λ p. omega (arith, t1.counts p, t2.counts p, t3.counts p);
    } in
    let l = Took-len h h3 b t in
    rw (q1, q2, q3)
      (some b, _, h3, refl, Nexts.took b (Iter.top cmp n) h3 t (omega arith) (omega arith))

next_random-some :
    (coin : ℕ → ℕ) (n : ℕ) (h : Heap Bid)
    → n ≡ len h
    → (o : Option Bid) × (it : Iter) × (h' : Heap Bid) × (next_random coin n h ≡ some (o, it, h'))
      × Nexts Iter.random h o it h'
unfolding next_random
next_random-some coin zero h k = (none, _, h, refl, Nexts.ended Iter.random (omega arith))
next_random-some coin (suc n) h k =
    let h0 : Heap Bid = record h { draws = h.draws + 1 } in
    let (b, h1, q, t0) = remove-some (random_cmp coin) (coin h.draws % suc n) h0 (omega arith) in
    let t : Took h b h1 = record { counts = t0.counts } in
    rw q (some b, _, h1, refl, Nexts.took b Iter.random h1 t (Took-len h h1 b t) tt)

pub next-some :
    (coin : ℕ → ℕ) (it : Iter) (h : Heap Bid)
    → Fits it h
    → (o : Option Bid) × (it' : Iter) × (h' : Heap Bid) × (next coin it h ≡ some (o, it', h'))
      × Nexts it h o it' h'
unfolding next
next-some coin (Iter.top cmp n) h k = next_top-some coin cmp n h k
next-some coin Iter.random h k = next_random-some coin (len h) h refl

-- A started iterator has a bid to give as long as there is a candidate.
pub record Starts (it : Iter) (h h' : Heap Bid) : Type 0 where
  pub same : Same h h'
  pub fits : Fits it h'
  pub some_left : left it h' ≡ 0 → len h ≡ 0

pub random_top_n-some :
    (n : ℕ) (cmp : Cmp Bid) (h : Heap Bid)
    → 0 < n
    → (it : Iter) × (h' : Heap Bid) × (random_top_n n cmp h ≡ some (it, h')) × Starts it h h'
unfolding random_top_n
random_top_n-some n cmp h k =
    let (h1, q, s) = init-some cmp h in
    let l = Same-len h h1 s in
    rw q (_, h1, refl, record { same = s; fits = ground arith; some_left = λ e. ground (arith, e) })

pub start_random-some :
    (coin : ℕ → ℕ) (h : Heap Bid)
    → (it : Iter) × (h' : Heap Bid) × (start_random coin h ≡ some (it, h')) × Starts it h h'
unfolding start_random
start_random-some coin h =
    let (h1, q, s) = init-some (random_cmp coin) h in
    rw q
      (_, h1, refl, record { same = s; fits = tt; some_left = λ e. omega (arith, Same-len h h1 s) })
