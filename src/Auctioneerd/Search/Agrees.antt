-- ===== src/Auctioneerd/Search/Agrees.antt =====
-- The binary search in the sorted providers finds a provider just when it is one of them.
use broker_core.Base.{
  ℕ, zero, suc, ◌+◌, ◌/◌, ◌<◌, ◌≤◌, ◌≡◌, ◌∙◌, refl, sym, String, Bool, true, false, some, List, [],
  ◌∷◌, ◌&&◌, ltb, length, str_eq, if◌then◌else◌, contains, All, All-map, arith, inl, inr,
  Bool-cases, Option-cases, ltb-cases, eq_iff, eq_refl,
}
use broker_core.Base.TextOrder.{
  text_le, text_le_refl, text_le_total, text_le_antisym, text_le_trans,
}
use broker_core.Auctioneerd.Heap.{get_elem?}
use broker_core.Auctioneerd.Search.{insert, sort, search_from, search, at_least, is_at, is_targeted}

-- The first index from `i` on and below `j` where the test holds, or `j`.
record IsFirst (f : ℕ → Bool) (i j r : ℕ) : Type 0 where
  pub above : i ≤ r
  pub below : r ≤ j
  pub fails : (a : ℕ) → i ≤ a → a < r → f a ≡ false
  pub holds : r < j → f r ≡ true

search_from-IsFirst :
    (f : ℕ → Bool) (up : (a b : ℕ) → a ≤ b → f a ≡ true → f b ≡ true) (k i j : ℕ)
    → i ≤ j
    → j ≤ i + k
    → IsFirst f i j (search_from k f i j)
unfolding search_from
search_from-IsFirst f up zero i j h q = record {
  above = omega arith;
  below = h;
  fails = λ a l m. absurd (omega arith);
  holds = λ l. absurd (omega arith);
}
search_from-IsFirst f up (suc k) i j h q = elim (ltb-cases i j) [
  | inr (e, l) ↦
      rw (search_from, e)
        (record {
          above = omega arith;
          below = h;
          fails = λ a m n. absurd (omega arith);
          holds = λ m. absurd (omega arith);
        })
  | inl (e, l) ↦
      let m : ℕ = (i + j) / 2 in
      elim (Bool-cases (f m)) [
        | inl t ↦
            let r = search_from-IsFirst f up k i m (omega arith) (omega arith) in
            rw (search_from, e, t)
              (record {
                above = r.above;
                below = omega (arith, r.below);
                fails = r.fails;
                holds = λ _. up_to f i m (search_from k f i m) r t;
              })
        | inr n ↦
            let r = search_from-IsFirst f up k (m + 1) j (omega arith) (omega arith) in
            rw (search_from, e, n)
              (record {
                above = omega (arith, r.above);
                below = r.below;
                fails = λ a x y. elim (ltb-cases m a) [
                  | inl (_, g) ↦ r.fails a (omega arith) y
                  | inr (_, g) ↦ elim (Bool-cases (f a)) [
                    | inl p ↦ let p' = up a m g p in cc
                    | inr p ↦ p
                  ]
                ];
                holds = r.holds;
              })
      ]
]
  where
    up_to : (f : ℕ → Bool) (i m r : ℕ) → IsFirst f i m r → f m ≡ true → f r ≡ true
    up_to f i m r h t = elim (ltb-cases r m) [
      | inl (_, l) ↦ h.holds l
      | inr (_, l) ↦ let e : r ≡ m = omega (arith, h.below) in rw e t
    ]

-- Ascending lists.
abbrev IsAscending : List String → Type 0
IsAscending [] = Unit
IsAscending (s ∷ ss) = All (λ t. text_le s t ≡ true) ss × IsAscending ss

All-insert :
    (P : String → Type 0) (s : String) (ts : List String) → P s → All P ts → All P (insert s ts)
unfolding insert
All-insert P s [] p h = (p, tt)
All-insert P s (t ∷ ts) p h = elim (Bool-cases (text_le s t)) [
  | inl e ↦ rw e (p, h)
  | inr e ↦ rw e (h.0, All-insert P s ts p h.1)
]

insert-IsAscending : (s : String) (ts : List String) → IsAscending ts → IsAscending (insert s ts)
unfolding insert
insert-IsAscending s [] h = (tt, tt)
insert-IsAscending s (t ∷ ts) h = elim (Bool-cases (text_le s t)) [
  | inl e ↦ rw e ((e, All-map _ _ ts (λ u q. text_le_trans s t u e q) h.0), h)
  | inr e ↦ rw e (All-insert _ s ts (text_le_total s t e) h.0, insert-IsAscending s ts h.1)
]

sort-IsAscending : (ss : List String) → IsAscending (sort ss)
unfolding sort
sort-IsAscending [] = tt
sort-IsAscending (s ∷ ss) = insert-IsAscending s (sort ss) (sort-IsAscending ss)

contains-insert :
    (x s : String) (ts : List String)
    → contains (insert s ts) x ≡ (if str_eq s x then true else contains ts x)
unfolding contains insert
contains-insert x s [] = ground arith
contains-insert x s (t ∷ ts) = ground (arith, contains-insert x s ts)

contains-sort : (x : String) (ss : List String) → contains (sort ss) x ≡ contains ss x
unfolding contains sort
contains-sort x [] = refl
contains-sort x (s ∷ ss) = contains-insert x s (sort ss) ∙ ground (arith, contains-sort x ss)

All-get :
    (P : String → Type 0) (ps : List String) (i : ℕ) (y : String)
    → All P ps
    → get_elem? ps i ≡ some y
    → P y
All-get P [] i y h e = cc
All-get P (p ∷ ps) zero y h e = let q : p ≡ y = cc in rw (← q) h.0
All-get P (p ∷ ps) (suc i) y h e = All-get P ps i y h.1 e

IsAscending-get :
    (ps : List String) (i j : ℕ) (x y : String)
    → IsAscending ps
    → i ≤ j
    → get_elem? ps i ≡ some x
    → get_elem? ps j ≡ some y
    → text_le x y ≡ true
IsAscending-get [] i j x y h l e d = cc
IsAscending-get (p ∷ ps) zero zero x y h l e d = let q : x ≡ y = cc in rw q (text_le_refl y)
IsAscending-get (p ∷ ps) zero (suc j) x y h l e d =
    let q : p ≡ x = cc in rw (← q) (All-get _ ps j y h.0 d)
IsAscending-get (p ∷ ps) (suc i) zero x y h l e d = absurd (omega arith)
IsAscending-get (p ∷ ps) (suc i) (suc j) x y h l e d =
    IsAscending-get ps i j x y h.1 (omega arith) e d

contains-get :
    (ps : List String) (s : String)
    → contains ps s ≡ true
    → (i : ℕ) × (i < length ps) × (get_elem? ps i ≡ some s)
unfolding contains
contains-get [] s h = cc
contains-get (p ∷ ps) s h = elim (Bool-cases (str_eq p s)) [
  | inl e ↦ let q = (eq_iff p s).0 e in (0, omega arith, rw q refl)
  | inr e ↦ let (i, l, g) = contains-get ps s (rw e at h) in (suc i, omega arith, g)
]

get-contains :
    (ps : List String) (s : String) (i : ℕ) → get_elem? ps i ≡ some s → contains ps s ≡ true
unfolding contains
get-contains [] s i e = cc
get-contains (p ∷ ps) s zero e = let q : p ≡ s = cc in rw (q, eq_refl s) refl
get-contains (p ∷ ps) s (suc i) e = ground (arith, get-contains ps s i e)

get-some : (ps : List String) (i : ℕ) → i < length ps → (p : String) × (get_elem? ps i ≡ some p)
get-some [] i h = absurd (omega arith)
get-some (p ∷ ps) zero h = (p, refl)
get-some (p ∷ ps) (suc i) h = get-some ps i (omega arith)

get-below : (ps : List String) (i : ℕ) (p : String) → get_elem? ps i ≡ some p → i < length ps
get-below [] i p e = cc
get-below (q ∷ ps) zero p e = omega arith
get-below (q ∷ ps) (suc i) p e = omega (arith, get-below ps i p e)

at_least-get :
    (ps : List String) (s p : String) (i : ℕ)
    → get_elem? ps i ≡ some p
    → at_least ps s i ≡ text_le s p
unfolding at_least
at_least-get ps s p i e = rw (at_least, e) refl

at_least-up :
    (ps : List String) (s : String)
    → IsAscending ps
    → (a b : ℕ) → a ≤ b
    → at_least ps s a ≡ true
    → at_least ps s b ≡ true
unfolding at_least
at_least-up ps s h a b l t = elim (Option-cases (get_elem? ps b)) [
  | inl n ↦ rw (at_least, n) refl
  | inr (y, e) ↦
      let (x, d) = get-some ps a (omega (arith, get-below ps b y e)) in
      at_least-get ps s y b e
      ∙ text_le_trans s x y (sym (at_least-get ps s x a d) ∙ t) (IsAscending-get ps a b x y h l d e)
]

is_at-get : (ps : List String) (s : String) (i : ℕ) → is_at ps s i ≡ true → get_elem? ps i ≡ some s
unfolding is_at
is_at-get ps s i h = elim (Option-cases (get_elem? ps i)) [
  | inl n ↦ absurd_of (rw (is_at, n) at h)
  | inr (p, e) ↦ let q = (eq_iff p s).0 (rw (is_at, e) at h) in e ∙ rw q refl
]
  where
    absurd_of : false ≡ true → get_elem? ps i ≡ some s
    absurd_of k = cc

get-is_at : (ps : List String) (s : String) (i : ℕ) → get_elem? ps i ≡ some s → is_at ps s i ≡ true
unfolding is_at
get-is_at ps s i e = rw (is_at, e) (eq_refl s)

found :
    (ps : List String) (s : String)
    → IsAscending ps
    → IsFirst (at_least ps s) 0 (length ps) (search (length ps) (at_least ps s))
unfolding search
found ps s h =
    search_from-IsFirst (at_least ps s) (at_least-up ps s h) (length ps) 0 (length ps) (omega arith)
      (omega arith)

-- A member is at the index that the search returns.
member-is_at :
    (ps : List String) (s : String) (i r : ℕ)
    → IsAscending ps
    → get_elem? ps i ≡ some s
    → IsFirst (at_least ps s) 0 (length ps) r
    → (ltb r (length ps) && is_at ps s r) ≡ true
member-is_at ps s i r h e f =
    let l = get-below ps i s e in
    let t = at_least-get ps s s i e ∙ text_le_refl s in
    elim (ltb-cases i r) [
      | inl (_, m) ↦ let n = f.fails i (omega arith) m in cc
      | inr (_, m) ↦
          let (p, d) = get-some ps r (omega arith) in
          let q =
            text_le_antisym p s (IsAscending-get ps r i p s h m d e)
              (sym (at_least-get ps s p r d) ∙ f.holds (omega arith)) in
          elim (ltb-cases r (length ps)) [
            | inl (b, _) ↦ rw b (get-is_at ps s r (d ∙ rw q refl))
            | inr (_, x) ↦ absurd (omega arith)
          ]
    ]

-- The test of selectWinners, a binary search in the sorted providers, holds of a provider just when it is
-- one of the providers.
pub is_targeted-contains : (ps : List String) (s : String) → is_targeted (sort ps) s ≡ contains ps s
unfolding is_targeted
is_targeted-contains ps s =
    let h = sort-IsAscending ps in
    elim (Bool-cases (contains (sort ps) s)) [
      | inl t ↦
          let (i, l, e) = contains-get (sort ps) s t in
          member-is_at (sort ps) s i _ h e (found (sort ps) s h) ∙ sym t ∙ contains-sort s ps
      | inr n ↦ elim (Bool-cases (is_targeted (sort ps) s)) [
        | inl t ↦
            let r : ℕ = search (length (sort ps)) (at_least (sort ps) s) in
            let g = is_at-get (sort ps) s r (ground (arith, t)) in
            let c = get-contains (sort ps) s r g in cc
        | inr f ↦ f ∙ sym n ∙ contains-sort s ps
      ]
    ]
