-- ===== src/Wallet/Pool/Page.antt =====
-- The rest of `PoolPage` of dex-frontend/src/pages/PoolPage.tsx: the positions of the account, what is
-- printed of a pool, and everything that changes the form.
use energy_chain.Shared.{
  ℕ, zero, suc, ◌&&◌, List, [], ◌∷◌, ◌++◌, Option, none, some, ltb, ◌==◌, if◌then◌else◌,
}
use energy_chain.Shared.Text.{Text, codes}
use energy_chain.Wallet.Units.{Units, Token}
use energy_chain.Wallet.Display.{Display}
use energy_chain.Wallet.Pool.{PoolInfo, Call, approve_router}
use energy_chain.Wallet.Pool.Amounts.{
  Amounts, PairReserves, handle_amount_a_change, handle_amount_b_change, Edit, edit,
}

module _ (d : Display) where
  -- `fmtNum`
  abbrev pub fmt_num : ℕ → ℕ → ℕ → Text
  fmt_num v decimals max_frac = d.to_locale max_frac (d.units v decimals)

  -- What is printed of a pool in the table.
  pub record PoolRow : Type 0 where
    pub label : Text
    pub reserve0 : Text
    pub reserve1 : Text
    pub total_lp : Text

  unfoldable pub pool_row : PoolInfo → PoolRow
  pool_row p = record {
    label = p.token0_symbol ++ codes " / " ++ p.token1_symbol;
    reserve0 = fmt_num p.reserve0 18 4;
    reserve1 = fmt_num p.reserve1 18 4;
    total_lp = fmt_num p.total_supply 18 4;
  }

  -- `priceInfo`
  unfoldable pub price_info : Token → Token → Option (PairReserves d.F) → Option Text
  price_info token_a token_b none = none
  price_info token_a token_b (some r) =
      if d.less d.zero_f r.r_a && d.less d.zero_f r.r_b
      then some (
          codes "1 "
          ++ token_a.symbol
          ++ codes " ≈ "
          ++ d.to_fixed 4 (d.over r.r_b r.r_a)
          ++ codes " "
          ++ token_b.symbol)
      else none

  -- "Your share"; `number` is `Number` of a bigint.
  unfoldable pub your_share : (ℕ → d.F) → PoolInfo → Text
  your_share number p =
      if ltb 0 p.total_supply
      then d.to_fixed 2 (d.times (d.over (number p.user_lp) (number p.total_supply)) d.hundred)
      else codes "0"

-- `pools.filter(p => p.userLp > 0n)`
unfoldable pub positions : List PoolInfo → List PoolInfo
positions [] = []
positions (p ∷ pools) = if ltb 0 p.user_lp then p ∷ positions pools else positions pools

-- The position whose panel is open, by its place in the list.
unfoldable pub toggle : ℕ → Option ℕ → Option ℕ
toggle i none = some i
toggle i (some j) = if j == i then none else some i

unfoldable pub opened : Option ℕ → List PoolInfo → Option PoolInfo
opened none pools = none
opened (some i) [] = none
opened (some zero) (p ∷ pools) = some p
opened (some (suc i)) (p ∷ pools) = opened (some i) pools

-- The call of `handleApprove`.
unfoldable pub approve_token : Text → Call
approve_token token = approve_router token

-- The form: the tokens, the amounts, and the side that is selected.
pub record Page : Type 0 where
  pub token_a : Token
  pub token_b : Token
  pub amounts : Amounts

pub data PageEvent : Type 0 where
  edited : (e : Edit) → PageEvent
  took_a took_b : (balance : Option (ℕ × ℕ)) → PageEvent
  chose_a chose_b : (t : Token) → PageEvent
  confirmed : PageEvent

abbrev pub no_amounts : Amounts
no_amounts = record { amount_a = []; amount_b = [] }

module _ (u : Units) (scaled : u.F → u.F → u.F → Text) where
  -- The reserves are those that the page has at that time.
  unfoldable pub on_page_event : Option (PairReserves u.F) → PageEvent → Page → Page
  on_page_event r (edited e) p = record p { amounts = edit u scaled r e p.amounts }
  on_page_event r (took_a none) p = p
  on_page_event r (took_a (some (value, decimals))) p = record p {
    amounts = handle_amount_a_change u scaled r (u.format_units value decimals) p.amounts;
  }
  on_page_event r (took_b none) p = p
  on_page_event r (took_b (some (value, decimals))) p = record p {
    amounts = handle_amount_b_change u scaled r (u.format_units value decimals) p.amounts;
  }
  on_page_event r (chose_a t) p = record p { token_a = t; amounts = no_amounts }
  on_page_event r (chose_b t) p = record p { token_b = t; amounts = no_amounts }
  on_page_event r confirmed p = record p { amounts = no_amounts }
