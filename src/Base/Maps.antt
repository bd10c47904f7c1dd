-- ===== src/Base/Maps.antt =====
-- Go maps as lists of entries with distinct keys.
use mathlib.Core.Path.{◌≡◌, refl}
use mathlib.Core.Bool.{Bool, true, false}
use mathlib.Core.Option.{Option, none, some}
use mathlib.Core.List.{List, [], ◌∷◌}
use mathlib.Core.Logic.{inl, inr}
use Prim.Native.Nat.{◌+◌, ◌≤◌}
use Prim.Native.String.{String}
use native.Mathlib.Omega.{arith}
use text.Mathlib.Text.{◌==◌ as str_eq}
use text.Mathlib.TextEquality.{eq_iff}
use text.Mathlib.TextPositions.{eq_refl}
use broker_core.Base.Tests.{if◌then◌else◌, Bool-cases}
use broker_core.Base.Lists.{length, All}
use broker_core.Base.Rows.{exists_row}

module _ {V : Type 0} where
  -- m[k]
  unfoldable pub lookup : String → List (String × V) → Option V
  lookup k [] = none
  lookup k (e ∷ es) = let rest = lookup k es in if str_eq e.0 k then some e.1 else rest

  -- m[k] = v
  unfoldable pub put : String → V → List (String × V) → List (String × V)
  put k v [] = (k, v) ∷ []
  put k v (e ∷ es) = let rest = put k v es in if str_eq e.0 k then (k, v) ∷ es else e ∷ rest

  abbrev pub has_key : String → List (String × V) → Bool
  has_key k es = exists_row (λ e. str_eq e.0 k) es

  pub length-put :
      (k : String) (v : V) (es : List (String × V)) → length (put k v es) ≤ length es + 1
  unfolding put
  length-put k v [] = omega arith
  length-put k v (e ∷ es) = elim (Bool-cases (str_eq e.0 k)) [
    | inl t ↦ rw t (omega arith)
    | inr f ↦ rw f (omega (arith, length-put k v es))
  ]

  pub length-put_new :
      (k : String) (v : V) (es : List (String × V))
      → has_key k es ≡ false
      → length (put k v es) ≡ length es + 1
  unfolding put exists_row
  length-put_new k v [] h = refl
  length-put_new k v (e ∷ es) h = elim (Bool-cases (str_eq e.0 k)) [
    | inl t ↦ ground (arith, t, h)
    | inr f ↦ rw f (omega (arith, length-put_new k v es (rw f at h)))
  ]

  pub All-put {ℓ} :
      (P : String × V → Type ℓ) (k : String) (v : V) (es : List (String × V))
      → P (k, v)
      → All P es
      → All P (put k v es)
  unfolding put
  All-put P k v [] p h = (p, tt)
  All-put P k v (e ∷ es) p h = elim (Bool-cases (str_eq e.0 k)) [
    | inl t ↦ rw t (p, h.1)
    | inr f ↦ rw f (h.0, All-put P k v es p h.1)
  ]

  pub has_key-put_self :
      (k : String) (v : V) (es : List (String × V)) → has_key k (put k v es) ≡ true
  unfolding put exists_row
  has_key-put_self k v [] = rw (eq_refl k) refl
  has_key-put_self k v (e ∷ es) = elim (Bool-cases (str_eq e.0 k)) [
    | inl t ↦ rw (t, eq_refl k) refl
    | inr f ↦ rw (f, f) (has_key-put_self k v es)
  ]

  pub has_key-put :
      (i k : String) (v : V) (es : List (String × V))
      → has_key i es ≡ true
      → has_key i (put k v es) ≡ true
  unfolding put exists_row
  has_key-put i k v [] h = cc
  has_key-put i k v (e ∷ es) h = elim (Bool-cases (str_eq e.0 k)) [
    | inl t ↦ let q = (eq_iff e.0 k).0 t in rw t (rw q at h)
    | inr f ↦ rw f (ground (arith, h, has_key-put i k v es))
  ]

  -- A key that is there is found, with a value for which `P` holds if it holds of all.
  pub lookup-some {ℓ} :
      (P : V → Type ℓ) (k : String) (es : List (String × V))
      → has_key k es ≡ true
      → All (λ e. P e.1) es
      → (v : V) × (lookup k es ≡ some v) × P v
  unfolding lookup exists_row
  lookup-some P k [] h a = absurd (no h)
    where
      no : false ≡ true → ⊥
      no e = cc
  lookup-some P k (e ∷ es) h a = elim (Bool-cases (str_eq e.0 k)) [
    | inl t ↦ rw t (e.1, refl, a.0)
    | inr f ↦ rw f (lookup-some P k es (rw f at h) a.1)
  ]
