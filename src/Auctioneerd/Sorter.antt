-- ===== src/Auctioneerd/Sorter.antt =====
-- The sorter of cmd/auctioneerd/auctioneer/sorter.go, with the comparators and iterators that the
-- auctioneer uses. `coin` gives the random numbers in the order in which they are drawn.
pub mod Takes
use broker_core.Base.{
  ℕ, zero, suc, ◌+◌, ◌%◌, String, Bool, Option, none, some, List, [], ◌∷◌, leb, if◌then◌else◌,
}
use broker_core.Base.Int.{sub_ℕ}
use broker_core.Base.Rows.{select}
use broker_core.Auctioneerd.Heap
use broker_core.Auctioneerd.Heap.{Heap, Cmp, len, ◌>>=◌}
use broker_core.Auctioneerd.Types.{Bid}

-- LowerProviderRate; a provider that is not in the table has rate zero.
abbrev pub lower_provider_rate : (String → ℕ) → Cmp Bid
lower_provider_rate rates i j k =
    (sub_ℕ (rates i.storage_provider_id) (rates j.storage_provider_id), k)

-- Random: rand.Intn(3) - 1
abbrev pub random_cmp : (ℕ → ℕ) → Cmp Bid
random_cmp coin i j k = (sub_ℕ (coin k % 3) 1, k + 1)

-- Sorter.Select
unfoldable pub select_bids : (Bid → Bool) → Heap Bid → Heap Bid
select_bids p h = record h { items = select p h.items }

-- The state of an iterator, beside the heap: the count of bids left for RandomTopN.
pub data Iter : Type 0 where
  top : Cmp Bid → ℕ → Iter
  random : Iter

abbrev pub min : ℕ → ℕ → ℕ
min a b = if leb a b then a else b

-- RandomTopN
unfoldable pub random_top_n : ℕ → Cmp Bid → Heap Bid → Option (Iter × Heap Bid)
random_top_n n cmp h = do h' ← Heap.init cmp h; some (Iter.top cmp (min n (len h')), h')

-- Random
unfoldable pub start_random : (ℕ → ℕ) → Heap Bid → Option (Iter × Heap Bid)
start_random coin h = do h' ← Heap.init (random_cmp coin) h; some (Iter.random, h')

unfoldable pub pop_many : Cmp Bid → ℕ → Heap Bid → Option (List Bid × Heap Bid)
pop_many cmp zero h = some ([], h)
pop_many cmp (suc i) h = do r ← Heap.pop cmp h; rs ← pop_many cmp i r.1; some (r.0 ∷ rs.0, rs.1)

unfoldable pub push_all : Cmp Bid → List Bid → Heap Bid → Option (Heap Bid)
push_all cmp [] h = some h
push_all cmp (b ∷ bs) h = do h' ← Heap.push cmp b h; push_all cmp bs h'

-- The closures that RandomTopN and Random return: the next bid, if there is one.
unfoldable pub next_top : (ℕ → ℕ) → Cmp Bid → ℕ → Heap Bid → Option (Option Bid × Iter × Heap Bid)
next_top coin cmp zero h = some (none, Iter.top cmp 0, h)
next_top coin cmp (suc n) h = do
  temp ← pop_many cmp (coin h.draws % suc n) (record h { draws = h.draws + 1 })
  b ← Heap.pop cmp temp.1
  h' ← push_all cmp temp.0 b.1
  some (some b.0, Iter.top cmp n, h')

unfoldable pub next_random : (ℕ → ℕ) → ℕ → Heap Bid → Option (Option Bid × Iter × Heap Bid)
next_random coin zero h = some (none, Iter.random, h)
next_random coin (suc n) h = do
  r ← Heap.remove (random_cmp coin) (coin h.draws % suc n) (record h { draws = h.draws + 1 })
  some (some r.0, Iter.random, r.1)

unfoldable pub next : (ℕ → ℕ) → Iter → Heap Bid → Option (Option Bid × Iter × Heap Bid)
next coin (Iter.top cmp n) h = next_top coin cmp n h
next coin Iter.random h = next_random coin (len h) h
