-- ===== src/Wallet/Display.antt =====
-- What the pages that only show something use of JavaScript numbers and of viem.
use energy_chain.Shared.{ℕ, Bool, length, drop, ◌-◌}
use energy_chain.Shared.Text.{Text}

-- `units n d` is `parseFloat(formatUnits(n, d))`, `to_fixed k x` is `x.toFixed(k)`, and `to_locale k x`
-- is `x.toLocaleString(undefined, { maximumFractionDigits: k })`.
pub record Display : Type 1 where
  pub F : Type 0
  pub zero_f : F
  pub hundred : F
  pub less : F → F → Bool
  pub over : F → F → F
  pub times : F → F → F
  pub units : ℕ → ℕ → F
  pub to_fixed : ℕ → F → Text
  pub to_locale : ℕ → F → Text

-- `s.slice(-n)`
abbrev pub slice_last : ℕ → Text → Text
slice_last n s = drop (length s - n) s
