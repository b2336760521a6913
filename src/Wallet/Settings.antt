-- ===== src/Wallet/Settings.antt =====
-- The store of dex-frontend/src/stores/swapSettings.ts. The number of minutes is a whole number.
pub mod View
use energy_chain.Shared.{
  List, [], ◌∷◌, ◌≡◌, true, ◌&&◌, Option, none, some, if◌then◌else◌, arith, ◌⊎◌,
}
use energy_chain.Shared.Int.{ℤ, pos, min_ℤ, max_ℤ, ◌≤ℤ◌}
use energy_chain.Shared.Text.{Text, codes}
use energy_chain.Wallet.Units.{Units}

-- `SlippagePreset`
pub data Preset : Type 0 where
  tenth half one custom : Preset

pub record Settings : Type 0 where
  pub preset : Preset
  pub custom_slippage : Text
  pub deadline_minutes : ℤ

unfoldable pub initial : Settings
initial = record { preset = half; custom_slippage = []; deadline_minutes = pos 20 }

unfoldable pub set_preset : Preset → Settings → Settings
set_preset p s = record s { preset = p }

unfoldable pub set_custom : Text → Settings → Settings
set_custom v s = record s { custom_slippage = v }

-- `Math.max(1, Math.min(180, n))`
unfoldable pub set_deadline : ℤ → Settings → Settings
set_deadline n s = record s { deadline_minutes = max_ℤ (pos 1) (min_ℤ (pos 180) n) }

module _ (u : Units) where
  -- `parseSlippage` on the literals of the presets. A NaN is not finite.
  unfoldable pub parse_slippage : Preset → Text → Option u.F
  parse_slippage tenth text = u.float_of (codes "0.1")
  parse_slippage half text = u.float_of (codes "0.5")
  parse_slippage one text = u.float_of (codes "1")
  parse_slippage custom text = elim (u.float_of text) [
    | none ↦ some u.half
    | some n ↦ if u.is_finite n && u.less u.zero_f n then some n else some u.half
  ]

  unfoldable pub slippage_percent : Settings → Option u.F
  unfolding parse_slippage
  slippage_percent s = parse_slippage s.preset s.custom_slippage

-- The calls of the store's setters.
pub data Setting : Type 0 where
  preset_to : Preset → Setting
  custom_to : Text → Setting
  deadline_to : ℤ → Setting

unfoldable pub apply : Setting → Settings → Settings
unfolding set_preset set_custom set_deadline
apply (preset_to p) = set_preset p
apply (custom_to v) = set_custom v
apply (deadline_to n) = set_deadline n

-- The deadline lies between 1 and 180 minutes.
abbrev pub IsTimely : Settings → Type 0
IsTimely s = (pos 1 ≤ℤ s.deadline_minutes) × (s.deadline_minutes ≤ℤ pos 180)

pub apply-IsTimely : (c : Setting) (s : Settings) → IsTimely s → IsTimely (apply c s)
unfolding apply
apply-IsTimely (preset_to p) s h = h
apply-IsTimely (custom_to v) s h = h
apply-IsTimely (deadline_to n) s h = ground arith

-- A custom slippage that is read is positive: what is not a finite positive number counts as a half.
pub slippage_percent-positive :
    (u : Units) (s : Settings) (p : u.F)
    → s.preset ≡ custom
    → slippage_percent u s ≡ some p
    → (p ≡ u.half) ⊎ ((u.is_finite p ≡ true) × (u.less u.zero_f p ≡ true))
unfolding slippage_percent
slippage_percent-positive u s p c e = ground arith
