-- ===== src/Base/TextOrder.antt =====
-- The order of texts by their characters' numbers, which is the order of Go's strings by their bytes.
use Prim.Native.Nat.{ℕ, Ordering, compare as compare_ℕ, ◌<◌}
use Prim.Native.Char.{Char, code}
use Prim.Native.String.compare
use Prim.Native.String.{String, [], ◌∷◌, compare}
use mathlib.Core.Path.{◌≡◌, refl, sym, ◌∙◌}
use mathlib.Core.Logic.{◌⊎◌, inl, inr}
use mathlib.Core.Bool.{Bool, true, false}
use native.Mathlib.Omega.{arith}
use text.Mathlib.Text.{is_le}
use text.Mathlib.TextEquality.{codes_equal}

-- s <= t
abbrev pub text_le : String → String → Bool
text_le s t = is_le (compare s t)

compare-lt : (m n : ℕ) → m < n → compare_ℕ m n ≡ Ordering.lt
compare-lt m n h = ground arith

compare-gt : (m n : ℕ) → n < m → compare_ℕ m n ≡ Ordering.gt
compare-gt m n h = ground arith

compare-eq : (m n : ℕ) → m ≡ n → compare_ℕ m n ≡ Ordering.eq
compare-eq m n h = ground arith

trichotomy : (m n : ℕ) → (m < n) ⊎ ((m ≡ n) ⊎ (n < m))
trichotomy m n = ground arith

module _ (c d : Char) (s t : String) where
  before : code c < code d → text_le (c ∷ s) (d ∷ t) ≡ true
  before h = rw (compare.cons-cons c d s t, compare-lt (code c) (code d) h) refl

  same : code c ≡ code d → text_le (c ∷ s) (d ∷ t) ≡ text_le s t
  same h = rw (compare.cons-cons c d s t, compare-eq (code c) (code d) h) refl

  after : code d < code c → text_le (c ∷ s) (d ∷ t) ≡ false
  after h = rw (compare.cons-cons c d s t, compare-gt (code c) (code d) h) refl

nil_first : (s : String) → text_le [] s ≡ true
nil_first [] = refl
nil_first (c ∷ s) = rw (compare.nil-cons c s) refl

nil_last : (c : Char) (s : String) → text_le (c ∷ s) [] ≡ false
nil_last c s = rw (compare.cons-nil c s) refl

pub text_le_refl : (s : String) → text_le s s ≡ true
text_le_refl [] = nil_first []
text_le_refl (c ∷ s) = rw (same c c s s refl) (text_le_refl s)

pub text_le_total : (s t : String) → text_le s t ≡ false → text_le t s ≡ true
text_le_total [] t h = let e = nil_first t in cc
text_le_total (c ∷ s) [] h = nil_first (c ∷ s)
text_le_total (c ∷ s) (d ∷ t) h = elim (trichotomy (code c) (code d)) [
  | inl l ↦ let e = before c d s t l in cc
  | inr (inl q) ↦ same d c t s (sym q) ∙ text_le_total s t (sym (same c d s t q) ∙ h)
  | inr (inr g) ↦ before d c t s g
]

pub text_le_antisym : (s t : String) → text_le s t ≡ true → text_le t s ≡ true → s ≡ t
text_le_antisym [] [] h k = refl
text_le_antisym [] (d ∷ t) h k = let e = nil_last d t in cc
text_le_antisym (c ∷ s) [] h k = let e = nil_last c s in cc
text_le_antisym (c ∷ s) (d ∷ t) h k = elim (trichotomy (code c) (code d)) [
  | inl l ↦ let e = after d c t s l in cc
  | inr (inl q) ↦
      let e1 = codes_equal c d (compare-eq (code c) (code d) q) in
      let e2 = text_le_antisym s t (sym (same c d s t q) ∙ h) (sym (same d c t s (sym q)) ∙ k) in
      λ i. e1 i ∷ e2 i
  | inr (inr g) ↦ let e = after c d s t g in cc
]

pub text_le_trans : (s t u : String) → text_le s t ≡ true → text_le t u ≡ true → text_le s u ≡ true
text_le_trans [] t u h k = nil_first u
text_le_trans (c ∷ s) [] u h k = let e = nil_last c s in cc
text_le_trans (c ∷ s) (d ∷ t) [] h k = let e = nil_last d t in cc
text_le_trans (c ∷ s) (d ∷ t) (e ∷ u) h k = elim (trichotomy (code c) (code d)) [
  | inr (inr g) ↦ let x = after c d s t g in cc
  | inl l ↦ elim (trichotomy (code d) (code e)) [
    | inl m ↦ before c e s u (omega arith)
    | inr (inl m) ↦ before c e s u (omega arith)
    | inr (inr m) ↦ let x = after d e t u m in cc
  ]
  | inr (inl q) ↦ elim (trichotomy (code d) (code e)) [
    | inl m ↦ before c e s u (omega arith)
    | inr (inl m) ↦
        same c e s u (q ∙ m)
        ∙ text_le_trans s t u (sym (same c d s t q) ∙ h) (sym (same d e t u m) ∙ k)
    | inr (inr m) ↦ let x = after d e t u m in cc
  ]
]
