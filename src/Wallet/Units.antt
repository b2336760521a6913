-- ===== src/Wallet/Units.antt =====
-- Tokens (dex-frontend/src/config/tokens.ts), and what the pages use of JavaScript numbers and of
-- viem. The numbers and the conversions are parameters.
use energy_chain.Shared.{ℕ, Bool, false, not, ◌||◌, [], ◌∷◌, Option, none, some, if◌then◌else◌}
use energy_chain.Shared.Int.{ℤ}
use energy_chain.Shared.Text.{Text}
use energy_chain.Shared.Number.{is_space}

-- `float_of` is `parseFloat`, where `none` is NaN. `parse_units` is viem's, where `none` is an
-- exception, and `format_units` too.
pub record Units : Type 1 where
  pub F : Type 0
  pub zero_f : F
  pub half : F
  pub less : F → F → Bool
  pub float_of : Text → Option F
  pub is_finite : F → Bool
  pub parse_units : Text → ℕ → Option ℕ
  pub format_units : ℕ → ℕ → Text
  -- `Math.floor((100 - slippage) * 100)`
  pub basis_points : F → ℤ

-- `Token`
pub record Token : Type 0 where
  pub address : Text
  pub name : Text
  pub symbol : Text
  pub decimals : ℕ
  pub is_native : Bool

-- `s.trim() !== ""`
unfoldable pub has_text : Text → Bool
unfolding is_space
has_text [] = false
has_text (c ∷ s) = not (is_space c) || has_text s

module _ (u : Units) where
  -- `v > 0`, which NaN fails
  unfoldable pub is_positive : Option u.F → Bool
  is_positive none = false
  is_positive (some v) = u.less u.zero_f v

  -- `parseFloat(s) || 0`
  unfoldable pub float_or_zero : Text → u.F
  float_or_zero s = elim (u.float_of s) [ none ↦ u.zero_f | some v ↦ v ]

  -- The amount of a text in the token's smallest unit, and 0 where there is none.
  unfoldable pub parsed_amount : Text → ℕ → ℕ
  parsed_amount text decimals =
      if is_positive (u.float_of text)
      then elim (u.parse_units text decimals) as (λ _. ℕ) [ none ↦ 0 | some n ↦ n ]
      else 0
