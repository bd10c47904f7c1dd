-- ===== src/Auctioneerd/Heap/Counts.antt =====
-- What the accesses of a heap keep: the elements with their number of occurrences, which is the count of
-- the elements that pass a test, for every test.
use broker_core.Base.{
  ℕ, zero, suc, ◌+◌, ◌<◌, ◌≡◌, ◌∙◌, refl, sym, Bool, true, some, List, [], ◌∷◌, if◌then◌else◌,
  length, arith,
}
use broker_core.Base.Rows.{count_rows}
use broker_core.Auctioneerd.Heap.{get_elem?, set, split_last, Heap, Cmp, len, less, swap, pop_last}

abbrev pub one_if : Bool → ℕ
one_if b = if b then 1 else 0

module _ {A : Type 0} where
  -- The same elements.
  pub record Same (h h' : Heap A) : Type 0 where
    pub counts : (p : A → Bool) → count_rows p h'.items ≡ count_rows p h.items

  pub count_rows-length : (xs : List A) → count_rows (λ _. true) xs ≡ length xs
  unfolding count_rows
  count_rows-length [] = refl
  count_rows-length (x ∷ xs) = omega (arith, count_rows-length xs)

  pub Same-len : (h h' : Heap A) → Same h h' → len h' ≡ len h
  Same-len h h' s =
      sym (count_rows-length h'.items) ∙ s.counts (λ _. true) ∙ count_rows-length h.items

  pub Same-refl : (h : Heap A) → Same h h
  Same-refl h = record { counts = λ p. refl }

  pub Same-trans : (h h' h'' : Heap A) → Same h h' → Same h' h'' → Same h h''
  Same-trans h h' h'' s t = record { counts = λ p. t.counts p ∙ s.counts p }

  get_elem?-some : (xs : List A) (i : ℕ) → i < length xs → (x : A) × (get_elem? xs i ≡ some x)
  get_elem?-some [] i h = absurd (omega arith)
  get_elem?-some (x ∷ xs) zero h = (x, refl)
  get_elem?-some (x ∷ xs) (suc i) h = get_elem?-some xs i (omega arith)

  count_rows-set :
      (p : A → Bool) (xs : List A) (i : ℕ) (x v : A)
      → get_elem? xs i ≡ some x
      → count_rows p (set xs i v) + one_if (p x) ≡ count_rows p xs + one_if (p v)
  unfolding count_rows
  count_rows-set p [] i x v e = cc
  count_rows-set p (y ∷ ys) zero x v e = let q : y ≡ x = cc in rw q (omega arith)
  count_rows-set p (y ∷ ys) (suc i) x v e = omega (arith, count_rows-set p ys i x v e)

  get_elem?-set :
      (xs : List A) (i j : ℕ) (y : A) → get_elem? xs j ≡ some y → get_elem? (set xs i y) j ≡ some y
  get_elem?-set [] i j y e = e
  get_elem?-set (x ∷ xs) zero zero y e = refl
  get_elem?-set (x ∷ xs) zero (suc j) y e = e
  get_elem?-set (x ∷ xs) (suc i) zero y e = e
  get_elem?-set (x ∷ xs) (suc i) (suc j) y e = get_elem?-set xs i j y e

  pub less-some :
      (cmp : Cmp A) (i j : ℕ) (h : Heap A)
      → i < len h
      → j < len h
      → (b : Bool) × (h' : Heap A) × (less cmp i j h ≡ some (b, h')) × Same h h'
  unfolding less
  less-some cmp i j h hi hj =
      let (x, ex) = get_elem?-some h.items i hi in
      let (y, ey) = get_elem?-some h.items j hj in
      rw (ex, ey) (_, _, refl, record { counts = λ p. refl })

  pub swap-some :
      (i j : ℕ) (h : Heap A)
      → i < len h
      → j < len h
      → (h' : Heap A) × (swap i j h ≡ some h') × Same h h'
  unfolding swap
  swap-some i j h hi hj =
      let (x, ex) = get_elem?-some h.items i hi in
      let (y, ey) = get_elem?-some h.items j hj in
      rw (ex, ey)
        (
          _,
          refl,
          record {
            counts = λ p. omega (
              arith,
              count_rows-set p h.items i x y ex,
              count_rows-set p (set h.items i y) j y x (get_elem?-set h.items i j y ey),
            );
          },
        )

  split_last-counts :
      (xs : List A)
      → 0 < length xs
      → (x : A) × (ys : List A) × (split_last xs ≡ some (x, ys))
        × ((p : A → Bool) → count_rows p xs ≡ one_if (p x) + count_rows p ys)
  unfolding count_rows
  split_last-counts [] h = absurd (omega arith)
  split_last-counts (x ∷ []) h = (x, [], refl, λ p. refl)
  split_last-counts (x ∷ y ∷ ys) h =
      let (z, zs, e, k) = split_last-counts (y ∷ ys) (omega arith) in
      rw e (z, x ∷ zs, refl, λ p. omega (arith, k p))

  -- `x` has been taken from the heap.
  pub record Took (h : Heap A) (x : A) (h' : Heap A) : Type 0 where
    pub counts : (p : A → Bool) → count_rows p h.items ≡ one_if (p x) + count_rows p h'.items

  pub Took-len : (h h' : Heap A) (x : A) → Took h x h' → len h ≡ len h' + 1
  Took-len h h' x t =
      omega (arith, t.counts (λ _. true), count_rows-length h.items, count_rows-length h'.items)

  pub pop_last-some :
      (h : Heap A) → 0 < len h → (x : A) × (h' : Heap A) × (pop_last h ≡ some (x, h')) × Took h x h'
  unfolding pop_last
  pop_last-some h k =
      let (x, ys, e, c) = split_last-counts h.items k in rw e (x, _, refl, record { counts = c })
