-- ===== src/Wallet/Pool/View.antt =====
-- `PoolPage` of dex-frontend/src/pages/PoolPage.tsx as the user sees it: its state, what the hooks
-- answer to a rendering, and what its handlers are.
pub mod Panels
pub mod Events
pub mod Possible
pub mod Sends
pub mod Keeps
use energy_chain.Shared.{
  ℕ, suc, Bool, true, false, ◌||◌, List, [], ◌∷◌, ◌++◌, Option, none, some, ◌==◌, if◌then◌else◌,
}
use energy_chain.Shared.Int.{ℤ}
use energy_chain.Shared.Text.{Text, codes}
use energy_chain.Shared.Number.{to_string}
use energy_chain.Wallet.Units.{Units, Token, parsed_amount}
use energy_chain.Wallet.Display.{Display}
use energy_chain.Wallet.Selector.View.{token_selector, is_none}
use energy_chain.Wallet.Markup.{
  Item, shows, loading, connect_wallet, dead, button, Label, words, spinner, field, slider, when,
}
use energy_chain.Wallet.Pool.{
  PoolInfo, Action, connect, enter, approve_a, approve_b, add, action, pool_token_addr,
}
use energy_chain.Wallet.Pool.Amounts.{PairReserves, typed_a, typed_b}
use energy_chain.Wallet.Pool.Page.{
  fmt_num, pool_row, price_info, your_share, positions, Page, PageEvent, edited, took_a, took_b,
}

-- What the form reads texts with, over the numbers of a display.
pub record Reading (d : Display) : Type 0 where
  pub half : d.F
  pub float_of : Text → Option d.F
  pub is_finite : d.F → Bool
  pub parse_units : Text → ℕ → Option ℕ
  pub format_units : ℕ → ℕ → Text
  pub basis_points : d.F → ℤ

abbrev pub units_of : (d : Display) → Reading d → Units
units_of d x = record {
  F = d.F;
  zero_f = d.zero_f;
  half = x.half;
  less = d.less;
  float_of = x.float_of;
  is_finite = x.is_finite;
  parse_units = x.parse_units;
  format_units = x.format_units;
  basis_points = x.basis_points;
}

-- `sel`, where `none` is null
pub data Side : Type 0 where
  side_a side_b : Side

-- The state that the user changes, with that of the selector (`query`).
pub record State : Type 0 where
  pub page : Page
  pub sel : Option Side
  pub query : Text
  pub remove_pool_idx : Option ℕ
  pub remove_percent : ℕ

-- What the hooks and the fetches have answered to a rendering. `lp_allowance` is what the query of
-- the router's allowance on a pair answers when liquidity is removed; `none` is an exception.
pub record Hooks (d : Display) : Type 0 where
  pub address : Option Text
  pub is_connected : Bool
  pub balance_a : Option (ℕ × ℕ)
  pub balance_b : Option (ℕ × ℕ)
  pub allowance_a : Option ℕ
  pub allowance_b : Option ℕ
  pub pair_reserves : Option (PairReserves d.F)
  pub pools : List PoolInfo
  pub is_loading : Bool
  pub is_pending : Bool
  pub is_confirming : Bool
  pub lp_allowance : Text → Option ℕ
  pub now : ℕ

-- What the handlers of the page do.
pub data Click : Type 0 where
  scrolls adds closes_selector : Click
  approves : (token : Text) → Click
  removes : (pool : PoolInfo) → Click
  toggles : (idx : ℕ) → Click
  slides_to : (percent : ℕ) → Click
  opens_selector : (side : Side) → Click
  searches : (s : Text) → Click
  picks : (t : Token) → Click
  edits : (e : PageEvent) → Click

-- `sel !== null`
abbrev pub is_open : Option Side → Bool
is_open none = false
is_open (some side) = true

-- `sel === "b" ? tokenB : tokenA`
abbrev pub selected : Option Side → Page → Token
selected none p = p.token_a
selected (some side_a) p = p.token_a
selected (some side_b) p = p.token_b

-- `removePoolIdx === idx`
unfoldable pub is_at : Option ℕ → ℕ → Bool
is_at none idx = false
is_at (some i) idx = i == idx

module _ (d : Display) where
  -- `busy`
  unfoldable pub busy : Hooks d → Bool
  busy h = h.is_pending || h.is_confirming

  unfoldable pub busy_or : Hooks d → Text → Label
  busy_or h s = if busy h then spinner else words s

  unfoldable pub balance_text : Option (ℕ × ℕ) → Text
  balance_text none = codes "0.00"
  balance_text (some (value, decimals)) = fmt_num d value decimals 6
