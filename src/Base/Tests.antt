-- ===== src/Base/Tests.antt =====
-- Boolean tests on numbers and texts, and the conditional.
use Prim.Native.Nat.{ℕ, compare, Ordering}
use Prim.Native.String.{String}
use mathlib.Core.Path.{◌≡◌, refl}
use mathlib.Core.Logic.{◌⊎◌, inl, inr}
use mathlib.Core.Bool.{Bool, true, false}
use mathlib.Core.Option.{Option, none, some}
use Prim.Native.Nat.{◌<◌, ◌≤◌}
use mathlib.Core.Logic.{◌≢◌}
use native.Mathlib.Omega.{arith}
pub use text.Mathlib.Text.{◌==◌ as str_eq}
use text.Mathlib.TextEquality.{eq_iff}

abbrev pub ltb : ℕ → ℕ → Bool
ltb a b = elim (compare a b) [ Ordering.lt ↦ true | _ ↦ false ]

abbrev pub leb : ℕ → ℕ → Bool
leb a b = elim (compare a b) [ Ordering.gt ↦ false | _ ↦ true ]

abbrev pub nat_eq : ℕ → ℕ → Bool
nat_eq a b = elim (compare a b) [ Ordering.eq ↦ true | _ ↦ false ]

infix 1 if◌then◌else◌
abbrev pub if◌then◌else◌ {ℓ} : {A : Type ℓ} → Bool → A → A → A
if true then x else y = x
if false then x else y = y

pub Bool-cases : (b : Bool) → (b ≡ true) ⊎ (b ≡ false)
Bool-cases true = inl refl
Bool-cases false = inr refl

pub Option-cases {ℓ} : {A : Type ℓ} (o : Option A) → (o ≡ none) ⊎ ((a : A) × (o ≡ some a))
Option-cases none = inl refl
Option-cases (some a) = inr (a, refl)

-- Two texts are equal, or the test on them fails.
pub text_cases : (s t : String) → (s ≡ t) ⊎ (str_eq s t ≡ false)
text_cases s t = elim (Bool-cases (str_eq s t)) [ inl e ↦ inl ((eq_iff s t).0 e) | inr n ↦ inr n ]

-- A test on numbers, with what its value says.
pub ltb-cases : (a b : ℕ) → ((ltb a b ≡ true) × (a < b)) ⊎ ((ltb a b ≡ false) × (b ≤ a))
ltb-cases a b = elim (Bool-cases (ltb a b)) [
  | inl e ↦ inl (e, ground (arith, e))
  | inr e ↦ inr (e, ground (arith, e))
]

pub leb-cases : (a b : ℕ) → ((leb a b ≡ true) × (a ≤ b)) ⊎ ((leb a b ≡ false) × (b < a))
leb-cases a b = elim (Bool-cases (leb a b)) [
  | inl e ↦ inl (e, ground (arith, e))
  | inr e ↦ inr (e, ground (arith, e))
]

pub nat_eq-cases : (a b : ℕ) → ((nat_eq a b ≡ true) × (a ≡ b)) ⊎ ((nat_eq a b ≡ false) × (a ≢ b))
nat_eq-cases a b = elim (Bool-cases (nat_eq a b)) [
  | inl e ↦ inl (e, ground (arith, e))
  | inr e ↦ inr (e, λ q. ground (arith, e, q))
]
