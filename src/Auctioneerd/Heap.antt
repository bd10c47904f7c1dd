-- ===== src/Auctioneerd/Heap.antt =====
-- bidHeap of cmd/auctioneerd/auctioneer/sorter.go, and what the sorter uses of the package
-- container/heap: Init, Push, Pop and Remove with their loops up and down. An index out of range
-- panics, which is `none`, as is a loop out of fuel. A comparator may draw random numbers, so it gets
-- and returns how many have been drawn.
pub mod Counts
pub mod Ops
use broker_core.Base.{
  ℕ, zero, suc, ◌+◌, ◌-◌, ◌*◌, ◌/◌, Bool, true, false, Option, none, some, List, [], ◌∷◌, ◌++◌, ltb,
  leb, nat_eq, length,
}
use broker_core.Base.Int.{ℤ, is_neg}

module _ {A B : Type 0} where
  infixl 10 ◌>>=◌
  abbrev pub ◌>>=◌ : Option A → (A → Option B) → Option B
  none >>= f = none
  some a >>= f = f a

module _ {A : Type 0} where
  abbrev pub get_elem? : List A → ℕ → Option A
  get_elem? [] i = none
  get_elem? (x ∷ xs) zero = some x
  get_elem? (x ∷ xs) (suc i) = get_elem? xs i

  abbrev pub set : List A → ℕ → A → List A
  set [] i v = []
  set (x ∷ xs) zero v = v ∷ xs
  set (x ∷ xs) (suc i) v = x ∷ set xs i v

  -- The last element, and those before it.
  abbrev pub split_last : List A → Option (A × List A)
  split_last [] = none
  split_last (x ∷ xs) = elim (split_last xs) [
    | none ↦ some (x, [])
    | some (y, ys) ↦ some (y, x ∷ ys)
  ]

-- `items` is the slice h, `draws` the count of random numbers drawn so far.
pub record Heap (A : Type 0) : Type 0 where
  pub items : List A
  pub draws : ℕ

abbrev pub Cmp : Type 0 → Type 0
Cmp A = A → A → ℕ → ℤ × ℕ

module _ {A : Type 0} where
  abbrev pub len : Heap A → ℕ
  len h = length h.items

  -- bidHeap.Less
  unfoldable pub less : Cmp A → ℕ → ℕ → Heap A → Option (Bool × Heap A)
  less cmp i j h = do
    x ← get_elem? h.items i
    y ← get_elem? h.items j
    let c = cmp x y h.draws
    some (is_neg c.0, record h { draws = c.1 })

  -- bidHeap.Swap
  unfoldable pub swap : ℕ → ℕ → Heap A → Option (Heap A)
  swap i j h = do
    x ← get_elem? h.items i
    y ← get_elem? h.items j
    some (record h { items = set (set h.items i y) j x })

  -- bidHeap.Pop
  unfoldable pub pop_last : Heap A → Option (A × Heap A)
  pop_last h = do r ← split_last h.items; some (r.0, record h { items = r.1 })

  -- The smaller child, given that the left one is there.
  unfoldable pub child : Cmp A → ℕ → ℕ → Heap A → Option (ℕ × Heap A)
  child cmp i n h = elim (ltb (2 * i + 2) n) [
    | true ↦ do
      r ← less cmp (2 * i + 2) (2 * i + 1) h
      some (elim r.0 [ true ↦ 2 * i + 2 | false ↦ 2 * i + 1 ], r.1)
    | false ↦ some (2 * i + 1, h)
  ]

  -- The loop of down, with the index it ends at.
  unfoldable pub down : ℕ → Cmp A → ℕ → ℕ → Heap A → Option (ℕ × Heap A)
  down zero cmp i n h = none
  down (suc k) cmp i n h = elim (leb n (2 * i + 1)) [
    | true ↦ some (i, h)
    | false ↦ do
      c ← child cmp i n h
      r ← less cmp c.0 i c.1
      elim r.0 [ false ↦ some (i, r.1) | true ↦ do s ← swap i c.0 r.1; down k cmp c.0 n s ]
  ]

  unfoldable pub up : ℕ → Cmp A → ℕ → Heap A → Option (Heap A)
  up zero cmp j h = none
  up (suc k) cmp j h = elim (nat_eq ((j - 1) / 2) j) [
    | true ↦ some h
    | false ↦ do
      r ← less cmp j ((j - 1) / 2) h
      elim r.0 [
        | false ↦ some r.1
        | true ↦ do s ← swap ((j - 1) / 2) j r.1; up k cmp ((j - 1) / 2) s
      ]
  ]

  -- The loop of Init, from i - 1 down to 0.
  unfoldable pub init_from : Cmp A → ℕ → Heap A → Option (Heap A)
  init_from cmp zero h = some h
  init_from cmp (suc i) h = do r ← down (len h + 1) cmp i (len h) h; init_from cmp i r.1

  unfoldable pub init : Cmp A → Heap A → Option (Heap A)
  init cmp h = init_from cmp (len h / 2) h

  unfoldable pub push : Cmp A → A → Heap A → Option (Heap A)
  push cmp x h = up (len h + 1) cmp (len h) (record h { items = h.items ++ x ∷ [] })

  unfoldable pub pop : Cmp A → Heap A → Option (A × Heap A)
  pop cmp h = do s ← swap 0 (len h - 1) h; r ← down (len h) cmp 0 (len h - 1) s; pop_last r.1

  unfoldable pub up_unless_down : Cmp A → ℕ → ℕ × Heap A → Option (Heap A)
  up_unless_down cmp i (j, h) = elim (ltb i j) [ true ↦ some h | false ↦ up (i + 1) cmp i h ]

  unfoldable pub sift : Cmp A → ℕ → ℕ → Heap A → Option (Heap A)
  sift cmp i n h = do s ← swap i n h; r ← down (n + 1) cmp i n s; up_unless_down cmp i r

  -- heap.Remove
  unfoldable pub remove : Cmp A → ℕ → Heap A → Option (A × Heap A)
  remove cmp i h = do
    s ← elim (nat_eq (len h - 1) i) [ true ↦ some h | false ↦ sift cmp i (len h - 1) h ]
    pop_last s
