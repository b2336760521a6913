-- ===== src/Wallet/Pool/View/Panels.antt =====
-- What the pool page renders: the positions with the panel that removes liquidity, the form, and the
-- table of pools.
use energy_chain.Shared.{ℕ, suc, false, List, [], ◌∷◌, ◌++◌, Option, none, some, if◌then◌else◌}
use energy_chain.Shared.Text.{Text, codes}
use energy_chain.Shared.Number.{to_string}
use energy_chain.Wallet.Units.{Token, parsed_amount}
use energy_chain.Wallet.Display.{Display}
use energy_chain.Wallet.Selector.View.{token_selector, is_none}
use energy_chain.Wallet.Markup.{
  Item, shows, loading, connect_wallet, dead, button, words, field, slider, when,
}
use energy_chain.Wallet.Pool.{
  PoolInfo, Action, connect, enter, approve_a, approve_b, add, action, pool_token_addr,
}
use energy_chain.Wallet.Pool.Amounts.{typed_a, typed_b}
use energy_chain.Wallet.Pool.Page.{
  fmt_num, pool_row, price_info, your_share, positions, Page, PageEvent, edited, took_a, took_b,
}
use energy_chain.Wallet.Pool.View.{
  Reading, units_of, Side, side_a, side_b, State, Hooks, Click, scrolls, adds, closes_selector,
  approves, removes, toggles, slides_to, opens_selector, searches, picks, edits, is_open, selected,
  is_at, busy, busy_or, balance_text,
}

module _ (d : Display) where
  module _ (number : ℕ → d.F) where
    -- One position, with its panel if that is open.
    unfoldable pub position_items : Hooks d → State → ℕ → PoolInfo → List (Item Click)
    position_items h s idx p =
        (shows (p.token0_symbol ++ (codes " / " ++ p.token1_symbol))
          ∷ shows (
              codes "LP: "
              ++ (fmt_num d p.user_lp 18 4 ++ (codes " / " ++ fmt_num d p.total_supply 18 4)))
          ∷ shows (codes "Your share: " ++ (your_share d number p ++ codes "%"))
          ∷ button false (toggles idx) (words (codes "Remove"))
          ∷ [])
        ++ when (is_at s.remove_pool_idx idx) (
            slider 1 100 s.remove_percent slides_to
            ∷ shows (to_string s.remove_percent ++ codes "%")
            ∷ button (busy d h) (removes p) (
                busy_or d h
                  (codes "Remove " ++ (to_string s.remove_percent ++ codes "% Liquidity")))
            ∷ [])

    unfoldable pub all_positions : Hooks d → State → ℕ → List PoolInfo → List (Item Click)
    all_positions h s idx [] = []
    all_positions h s idx (p ∷ pools) =
        position_items h s idx p ++ all_positions h s (suc idx) pools

    unfoldable pub positions_panel : Hooks d → State → List (Item Click)
    positions_panel h s =
        let mine = positions h.pools in
        shows (codes "Your Positions")
        ∷ (if h.is_loading
            then loading ∷ []
            else if is_none mine
            then shows (codes "No liquidity positions found")
              ∷ button false scrolls (words (codes "Add liquidity"))
              ∷ []
            else all_positions h s 0 mine)

  -- The line with the rate; where there is one, the reserves are known.
  unfoldable pub rate_lines : Option Text → List (Item Click)
  rate_lines none = []
  rate_lines (some info) =
      shows (codes "Current rate: " ++ info)
      ∷ shows (codes "(amounts auto-calculated to match pool ratio)")
      ∷ []

  -- One side of the form.
  unfoldable pub side_items :
      Text
      → Side
      → Token
      → Text
      → Option (ℕ × ℕ)
      → (Text → PageEvent)
      → PageEvent
      → List (Item Click)
  side_items title side t amount balance typed took =
      shows title
      ∷ button false (opens_selector side) (words t.symbol)
      ∷ field amount (codes "0.0") (λ s. edits (typed s))
      ∷ shows (codes "Balance: ")
      ∷ button false (edits took) (words (balance_text d balance))
      ∷ []

  unfoldable pub action_item : Text → Hooks d → Page → Action → Item Click
  action_item wecy h p connect = connect_wallet
  action_item wecy h p enter = dead (codes "Enter amounts")
  action_item wecy h p approve_a =
      button (busy d h) (approves (pool_token_addr wecy p.token_a))
        (busy_or d h (codes "Approve " ++ p.token_a.symbol))
  action_item wecy h p approve_b =
      button (busy d h) (approves (pool_token_addr wecy p.token_b))
        (busy_or d h (codes "Approve " ++ p.token_b.symbol))
  action_item wecy h p add = button (busy d h) adds (busy_or d h (codes "Add Liquidity"))

  -- A row of the table of pools.
  unfoldable pub table_row : PoolInfo → List (Item Click)
  table_row p =
      let row = pool_row d p in
      shows row.label ∷ shows row.reserve0 ∷ shows row.reserve1 ∷ shows row.total_lp ∷ []

  unfoldable pub table_rows : List PoolInfo → List (Item Click)
  table_rows [] = []
  table_rows (p ∷ pools) = table_row p ++ table_rows pools

  unfoldable pub pools_panel : Hooks d → List (Item Click)
  pools_panel h =
      shows (codes "Pools")
      ∷ (if h.is_loading
          then loading ∷ []
          else if is_none h.pools
          then shows (codes "No pools found") ∷ []
          else shows (codes "Pool")
            ∷ shows (codes "Reserve 0")
            ∷ shows (codes "Reserve 1")
            ∷ shows (codes "Total LP")
            ∷ table_rows h.pools)

  module _ (x : Reading d) where
    -- `parsedA`, `parsedB`
    unfoldable pub parsed_a : Page → ℕ
    parsed_a p = parsed_amount (units_of d x) p.amounts.amount_a p.token_a.decimals

    unfoldable pub parsed_b : Page → ℕ
    parsed_b p = parsed_amount (units_of d x) p.amounts.amount_b p.token_b.decimals

    unfoldable pub form_action : Hooks d → Page → Action
    form_action h p =
        action h.is_connected p.token_a p.token_b (parsed_a p) (parsed_b p) h.allowance_a
          h.allowance_b

    unfoldable pub form_panel : Text → Hooks d → Page → List (Item Click)
    form_panel wecy h p =
        shows (codes "Add Liquidity")
        ∷ (rate_lines (price_info d p.token_a p.token_b h.pair_reserves)
            ++ (side_items (codes "Token A") side_a p.token_a p.amounts.amount_a h.balance_a
                  (λ s. edited (typed_a s)) (took_a h.balance_a)
                ++ (side_items (codes "Token B") side_b p.token_b p.amounts.amount_b h.balance_b
                      (λ s. edited (typed_b s)) (took_b h.balance_b)
                    ++ action_item wecy h p (form_action h p) ∷ [])))

    -- The page, with the selector over all tokens.
    unfoldable pub pool_page : (ℕ → d.F) → Text → List Token → Hooks d → State → List (Item Click)
    pool_page number wecy tokens h s =
        positions_panel number h s
        ++ (form_panel wecy h s.page
            ++ (pools_panel h
                ++ token_selector closes_selector searches picks (is_open s.sel) s.query
                    (some (selected s.sel s.page)) tokens))
