-- ===== src/Auctioneerd/Heap/Ops.antt =====
-- The operations of the heap end, without a panic, and keep the elements.
use broker_core.Base.{
  ℕ, zero, suc, ◌+◌, ◌-◌, ◌*◌, ◌/◌, ◌<◌, ◌≤◌, ◌≡◌, ◌∙◌, refl, sym, Bool, some, List, [], ◌∷◌, ◌++◌,
  length-append, arith, Bool-cases, inl, inr, ltb-cases, leb-cases, nat_eq-cases,
}
use broker_core.Base.Rows.{count_rows}
use broker_core.Auctioneerd.Heap.{
  Heap, Cmp, len, child, down, up, init_from, init, push, pop, sift, up_unless_down, remove,
}
use broker_core.Auctioneerd.Heap.Counts.{
  one_if, Same, Same-len, Same-refl, Same-trans, less-some, swap-some, pop_last-some, Took,
}

module _ {A : Type 0} where
  child-some :
      (cmp : Cmp A) (i n : ℕ) (h : Heap A)
      → 2 * i + 1 < n
      → n ≤ len h
      → (c : ℕ) × (h' : Heap A) × (child cmp i n h ≡ some (c, h')) × (i < c) × (c < n) × Same h h'
  unfolding child
  child-some cmp i n h hi hn = elim (ltb-cases (2 * i + 2) n) [
    | inr (e, b') ↦ rw (child, e) (2 * i + 1, h, refl, omega arith, hi, Same-refl h)
    | inl (e, b') ↦
        let (b, h', q, s) = less-some cmp (2 * i + 2) (2 * i + 1) h (omega arith) (omega arith) in
        elim (Bool-cases b) [
          | inl t ↦ rw (child, e, q, t) (2 * i + 2, h', refl, omega arith, omega arith, s)
          | inr f ↦ rw (child, e, q, f) (2 * i + 1, h', refl, omega arith, hi, s)
        ]
  ]

  pub down-some :
      (k : ℕ) (cmp : Cmp A) (i n : ℕ) (h : Heap A)
      → i ≤ n
      → n ≤ len h
      → n < i + k
      → (j : ℕ) × (h' : Heap A) × (down k cmp i n h ≡ some (j, h')) × Same h h'
  unfolding down
  down-some zero cmp i n h hi hn hk = absurd (omega arith)
  down-some (suc k) cmp i n h hi hn hk = elim (leb-cases n (2 * i + 1)) [
    | inl (e, b') ↦ rw (down, e) (i, h, refl, Same-refl h)
    | inr (e, b') ↦
        let (c, h1, qc, ic, cn, s1) = child-some cmp i n h (omega arith) hn in
        let n1 = Same-len h h1 s1 in
        let (b, h2, ql, s2) = less-some cmp c i h1 (omega arith) (omega arith) in
        let n2 = Same-len h1 h2 s2 in
        elim (Bool-cases b) [
          | inr f ↦ rw (down, e, qc, ql, f) (i, h2, refl, Same-trans h h1 h2 s1 s2)
          | inl t ↦
              let (h3, qs, s3) = swap-some i c h2 (omega arith) (omega arith) in
              let n3 = Same-len h2 h3 s3 in
              let (j, h4, qd, s4) =
                down-some k cmp c n h3 (omega arith) (omega arith) (omega arith) in
              rw (down, e, qc, ql, t, qs)
                (
                  j,
                  h4,
                  qd,
                  Same-trans h h1 h4 s1 (Same-trans h1 h2 h4 s2 (Same-trans h2 h3 h4 s3 s4)),
                )
        ]
  ]

  pub up-some :
      (k : ℕ) (cmp : Cmp A) (j : ℕ) (h : Heap A)
      → j < len h
      → j < k
      → (h' : Heap A) × (up k cmp j h ≡ some h') × Same h h'
  unfolding up
  up-some zero cmp j h hj hk = absurd (omega arith)
  up-some (suc k) cmp j h hj hk = elim (nat_eq-cases ((j - 1) / 2) j) [
    | inl (e, b') ↦ rw (up, e) (h, refl, Same-refl h)
    | inr (e, b') ↦
        let (b, h1, ql, s1) = less-some cmp j ((j - 1) / 2) h hj (omega arith) in
        let n1 = Same-len h h1 s1 in
        elim (Bool-cases b) [
          | inr f ↦ rw (up, e, ql, f) (h1, refl, s1)
          | inl t ↦
              let (h2, qs, s2) = swap-some ((j - 1) / 2) j h1 (omega arith) (omega arith) in
              let n2 = Same-len h1 h2 s2 in
              let (h3, qu, s3) = up-some k cmp ((j - 1) / 2) h2 (omega arith) (omega arith) in
              rw (up, e, ql, t, qs) (h3, qu, Same-trans h h1 h3 s1 (Same-trans h1 h2 h3 s2 s3))
        ]
  ]

  init_from-some :
      (cmp : Cmp A) (i : ℕ) (h : Heap A)
      → i ≤ len h
      → (h' : Heap A) × (init_from cmp i h ≡ some h') × Same h h'
  unfolding init_from
  init_from-some cmp zero h hi = (h, refl, Same-refl h)
  init_from-some cmp (suc i) h hi =
      let (j, h1, q1, s1) =
        down-some (len h + 1) cmp i (len h) h (omega arith) (omega arith) (omega arith) in
      let n1 = Same-len h h1 s1 in
      let (h2, q2, s2) = init_from-some cmp i h1 (omega arith) in
      rw q1 (h2, q2, Same-trans h h1 h2 s1 s2)

  pub init-some : (cmp : Cmp A) (h : Heap A) → (h' : Heap A) × (init cmp h ≡ some h') × Same h h'
  unfolding init
  init-some cmp h = init_from-some cmp (len h / 2) h (omega arith)

  Took-trans : (h h' h'' : Heap A) (x : A) → Same h h' → Took h' x h'' → Took h x h''
  Took-trans h h' h'' x s t = record { counts = λ p. sym (s.counts p) ∙ t.counts p }

  pub pop-some :
      (cmp : Cmp A) (h : Heap A)
      → 0 < len h
      → (x : A) × (h' : Heap A) × (pop cmp h ≡ some (x, h')) × Took h x h'
  unfolding pop
  pop-some cmp h k =
      let (h1, q1, s1) = swap-some 0 (len h - 1) h k (omega arith) in
      let n1 = Same-len h h1 s1 in
      let (j, h2, q2, s2) =
        down-some (len h) cmp 0 (len h - 1) h1 (omega arith) (omega arith) (omega arith) in
      let n2 = Same-len h1 h2 s2 in
      let (x, h3, q3, t) = pop_last-some h2 (omega arith) in
      rw (q1, q2) (x, h3, q3, Took-trans h h2 h3 x (Same-trans h h1 h2 s1 s2) t)

  sift-some :
      (cmp : Cmp A) (i n : ℕ) (h : Heap A)
      → i < n
      → n < len h
      → (h' : Heap A) × (sift cmp i n h ≡ some h') × Same h h'
  unfolding sift up_unless_down
  sift-some cmp i n h hi hn =
      let (h1, q1, s1) = swap-some i n h (omega arith) hn in
      let n1 = Same-len h h1 s1 in
      let (j, h2, q2, s2) =
        down-some (n + 1) cmp i n h1 (omega arith) (omega arith) (omega arith) in
      let n2 = Same-len h1 h2 s2 in
      let s = Same-trans h h1 h2 s1 s2 in
      elim (ltb-cases i j) [
        | inl (e, b') ↦ rw (q1, q2, up_unless_down, e) (h2, refl, s)
        | inr (e, b') ↦
            let (h3, q3, s3) = up-some (i + 1) cmp i h2 (omega arith) (omega arith) in
            rw (q1, q2, up_unless_down, e) (h3, q3, Same-trans h h2 h3 s s3)
      ]

  pub remove-some :
      (cmp : Cmp A) (i : ℕ) (h : Heap A)
      → i < len h
      → (x : A) × (h' : Heap A) × (remove cmp i h ≡ some (x, h')) × Took h x h'
  unfolding remove
  remove-some cmp i h hi = elim (nat_eq-cases (len h - 1) i) [
    | inl (e, b') ↦ rw e (pop_last-some h (omega arith))
    | inr (e, b') ↦
        let (h1, q1, s1) = sift-some cmp i (len h - 1) h (omega arith) (omega arith) in
        let n1 = Same-len h h1 s1 in
        let (x, h2, q2, t) = pop_last-some h1 (omega arith) in
        rw (e, q1) (x, h2, q2, Took-trans h h1 h2 x s1 t)
  ]

  count_rows-snoc :
      (p : A → Bool) (xs : List A) (x : A)
      → count_rows p (xs ++ x ∷ []) ≡ one_if (p x) + count_rows p xs
  unfolding count_rows
  count_rows-snoc p [] x = refl
  count_rows-snoc p (y ∷ ys) x = omega (arith, count_rows-snoc p ys x)

  pub push-some :
      (cmp : Cmp A) (x : A) (h : Heap A) → (h' : Heap A) × (push cmp x h ≡ some h') × Took h' x h
  unfolding push
  push-some cmp x h =
      let h1 : Heap A = record h { items = h.items ++ x ∷ [] } in
      let (h2, q, s) =
        up-some (len h + 1) cmp (len h) h1 (omega (arith, length-append h.items (x ∷ [])))
          (omega arith) in
      (h2, q, record { counts = λ p. s.counts p ∙ count_rows-snoc p h.items x })
