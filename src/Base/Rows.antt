-- ===== src/Base/Rows.antt =====
-- Tables as lists of rows, and the SQL statements that the programs use on them: a selection, the
-- first row of one, an update of the rows that satisfy a condition, and a deletion.
use mathlib.Core.Path.{◌≡◌, refl}
use mathlib.Core.Bool.{Bool, true, false}
use mathlib.Core.Option.{Option, none, some}
use mathlib.Core.List.{List, [], ◌∷◌, ◌++◌}
use mathlib.Core.Logic.{inl, inr}
use Prim.Native.Nat.{ℕ, ◌+◌}
use native.Mathlib.Omega.{arith}
use broker_core.Base.Tests.{leb, if◌then◌else◌, Bool-cases}
use broker_core.Base.Lists.{All}

module _ {ℓ} {A : Type ℓ} where
  -- SELECT * FROM rows WHERE p
  unfoldable pub select : (A → Bool) → List A → List A
  select p [] = []
  select p (x ∷ xs) = let rest = select p xs in if p x then x ∷ rest else rest

  -- The same by primary key: at most one row.
  unfoldable pub select_one : (A → Bool) → List A → Option A
  select_one p [] = none
  select_one p (x ∷ xs) = let rest = select_one p xs in if p x then some x else rest

  -- A row with the key is there.
  unfoldable pub exists_row : (A → Bool) → List A → Bool
  exists_row p [] = false
  exists_row p (x ∷ xs) = let rest = exists_row p xs in if p x then true else rest

  -- UPDATE rows SET f WHERE p
  unfoldable pub update_rows : (A → Bool) → (A → A) → List A → List A
  update_rows p f [] = []
  update_rows p f (x ∷ xs) = (if p x then f x else x) ∷ update_rows p f xs

  -- The number of rows that an update changes.
  unfoldable pub count_rows : (A → Bool) → List A → ℕ
  count_rows p [] = 0
  count_rows p (x ∷ xs) = (if p x then 1 else 0) + count_rows p xs

  -- DELETE FROM rows WHERE p
  unfoldable pub delete_rows : (A → Bool) → List A → List A
  delete_rows p [] = []
  delete_rows p (x ∷ xs) = let rest = delete_rows p xs in if p x then rest else x ∷ rest

  -- ORDER BY key LIMIT 1; of rows with the same key, the first.
  unfoldable pub first_by : (A → ℕ) → List A → Option A
  first_by key [] = none
  first_by key (x ∷ xs) = elim (first_by key xs) [
    | none ↦ some x
    | some y ↦ if leb (key x) (key y) then some x else some y
  ]

  -- What the rows have and the update keeps or establishes, the updated rows have.
  pub All-update_rows {κ κ'} :
      (P : A → Type κ) (Q : A → Type κ') (p : A → Bool) (f : A → A) (xs : List A)
      → ((x : A) → p x ≡ true → P x → Q (f x))
      → ((x : A) → p x ≡ false → P x → Q x)
      → All P xs
      → All Q (update_rows p f xs)
  unfolding update_rows
  All-update_rows P Q p f [] hit miss h = tt
  All-update_rows P Q p f (x ∷ xs) hit miss h = elim (Bool-cases (p x)) [
    | inl e ↦ rw e (hit x e h.0, All-update_rows P Q p f xs hit miss h.1)
    | inr e ↦ rw e (miss x e h.0, All-update_rows P Q p f xs hit miss h.1)
  ]

  pub exists_row-append :
      (p : A → Bool) (xs ys : List A) → exists_row p xs ≡ true → exists_row p (xs ++ ys) ≡ true
  unfolding exists_row
  exists_row-append p [] ys h = cc
  exists_row-append p (x ∷ xs) ys h = ground (arith, exists_row-append p xs ys)

  pub exists_row-append_self :
      (p : A → Bool) (xs : List A) (y : A) → p y ≡ true → exists_row p (xs ++ y ∷ []) ≡ true
  unfolding exists_row
  exists_row-append_self p [] y h = rw h
  exists_row-append_self p (x ∷ xs) y h = ground (arith, exists_row-append_self p xs y h)

  -- An update that leaves the test of another key alone.
  pub select_one-update_rows :
      (q p : A → Bool) (f : A → A) (xs : List A)
      → ((x : A) → q (f x) ≡ q x)
      → select_one q (update_rows p f xs)
        ≡ elim (select_one q xs) [ none ↦ none | some x ↦ some (if p x then f x else x) ]
  unfolding select_one update_rows
  select_one-update_rows q p f [] h = refl
  select_one-update_rows q p f (x ∷ xs) h = ground (arith, h x, select_one-update_rows q p f xs h)

  -- The row that a selection finds satisfies its test.
  pub select_one-test : (q : A → Bool) (xs : List A) (x : A) → select_one q xs ≡ some x → q x ≡ true
  unfolding select_one
  select_one-test q [] x h = cc
  select_one-test q (y ∷ ys) x h = elim (Bool-cases (q y)) [
    | inl e ↦ ground (arith, e)
    | inr e ↦ select_one-test q ys x (ground (arith, e))
  ]

  pub select_one-append :
      (q : A → Bool) (xs ys : List A)
      → select_one q (xs ++ ys)
        ≡ elim (select_one q xs) [ none ↦ select_one q ys | some x ↦ some x ]
  unfolding select_one
  select_one-append q [] ys = refl
  select_one-append q (x ∷ xs) ys = ground (arith, select_one-append q xs ys)
