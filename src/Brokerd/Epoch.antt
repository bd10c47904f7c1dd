-- ===== src/Brokerd/Epoch.antt =====
-- Filecoin epochs (timeToFilEpoch of cmd/brokerd/broker/broker.go): 30 seconds each, counted from the
-- genesis block.
use broker_core.Base.{
  ℕ, ◌+◌, ◌-◌, ◌*◌, ◌/◌, ◌≤◌, ◌<◌, ◌≡◌, nat_eq, if◌then◌else◌, arith, refl, ◌⊎◌, inl, inr,
  ltb-cases,
}
use broker_core.Base.Int.{ℤ, pos, negsuc, sub_ℕ}
use broker_core.Effects.{Result, ok, err, Error, message}

abbrev pub genesis : ℕ
genesis = 1598306400

abbrev pub before_genesis : Error
before_genesis = message "the provided deadline is before genesis"

-- The epoch of the integer quotient; Go rounds a negative quotient towards zero.
epoch_of : ℤ → Result ℕ
epoch_of (pos d) = if nat_eq (d / 30) 0 then err before_genesis else ok (d / 30)
epoch_of (negsuc d) = err before_genesis

-- timeToFilEpoch of a Unix time in seconds.
unfoldable pub time_to_fil_epoch : ℤ → Result ℕ
unfolding epoch_of
time_to_fil_epoch (pos t) = epoch_of (sub_ℕ t genesis)
time_to_fil_epoch (negsuc t) = err before_genesis

-- A Unix time in seconds, before or after 1970, lies in the epoch.
abbrev pub InEpoch : ℕ → ℤ → Type 0
InEpoch e (pos t) = (genesis + 30 * e ≤ t) × (t < genesis + 30 * e + 30)
InEpoch e (negsuc t) = ⊥

-- It lies before the end of the first epoch.
abbrev pub IsEarly : ℤ → Type 0
IsEarly (pos t) = t < genesis + 30
IsEarly (negsuc t) = Unit

epoch_cases :
    (t : ℕ)
    → ((e : ℕ) × (time_to_fil_epoch (pos t) ≡ ok e) × (0 < e) × InEpoch e (pos t))
      ⊎ ((time_to_fil_epoch (pos t) ≡ err before_genesis) × (t < genesis + 30))
unfolding time_to_fil_epoch
epoch_cases t = elim (ltb-cases t (genesis + 30)) [
  | inl (_, l) ↦ inr (ground arith, l)
  | inr (_, g) ↦ inl ((t - genesis) / 30, ground arith, omega arith, (omega arith, omega arith))
]

-- Every Unix time in seconds, also one before 1970, either has an epoch, which then is positive and which
-- it lies in, or is refused as being before genesis, and then lies before the end of the first epoch. Only
-- one epoch has a given time in it, so these determine what the function returns.
pub time_to_fil_epoch_cases :
    (t : ℤ)
    → (((e : ℕ) × (time_to_fil_epoch t ≡ ok e) × (0 < e) × InEpoch e t)
        ⊎ ((time_to_fil_epoch t ≡ err before_genesis) × IsEarly t))
      × ((d e : ℕ) → InEpoch d t → InEpoch e t → d ≡ e)
unfolding time_to_fil_epoch
time_to_fil_epoch_cases (pos t) = (epoch_cases t, λ d e h k. omega (arith, h.0, h.1, k.0, k.1))
time_to_fil_epoch_cases (negsuc t) = (inr (refl, tt), λ d e h k. absurd h)
