-- ===== src/Wallet/Tokens/View.antt =====
-- What `TokensPage` of dex-frontend/src/pages/TokensPage.tsx renders.
use energy_chain.Shared.{ℕ, suc, Bool, false, not, ◌&&◌, List, [], ◌∷◌, ◌++◌, if◌then◌else◌}
use energy_chain.Shared.Text.{Text, codes}
use energy_chain.Shared.Number.{to_string}
use energy_chain.Wallet.Markup.{Item, shows, loading, button, words, field, when}
use energy_chain.Wallet.Selector.View.{is_none}
use energy_chain.Wallet.Tokens.{TokenRow, filtered}

-- What the page can cause: `fetchTokens` and `setQ`.
pub data Click : Type 0 where
  refetches : Click
  filters_by : (q : Text) → Click

-- A row of the table, numbered by its place.
unfoldable pub row_items : ℕ → TokenRow → List (Item Click)
row_items i r =
    shows (to_string (suc i))
    ∷ shows r.symbol
    ∷ shows r.name
    ∷ shows r.price_in_usdt
    ∷ shows r.user_balance
    ∷ shows r.total_supply
    ∷ []

unfoldable pub rows_from : ℕ → List TokenRow → List (Item Click)
rows_from i [] = []
rows_from i (r ∷ rows) = row_items i r ++ rows_from (suc i) rows

unfoldable pub token_table : List TokenRow → List (Item Click)
token_table rows =
    shows (codes "#")
    ∷ shows (codes "Token")
    ∷ shows (codes "Price")
    ∷ shows (codes "Your Balance")
    ∷ shows (codes "Total Supply")
    ∷ rows_from 0 rows

unfoldable pub tokens_page : Bool → Text → List TokenRow → List (Item Click)
tokens_page is_loading q tokens =
    let rows = filtered q tokens in
    (shows (codes "Tokens")
      ∷ button false refetches (words [])
      ∷ field q (codes "Filter by name or symbol") filters_by
      ∷ [])
    ++ ((if is_loading then loading ∷ [] else token_table rows)
        ++ when (not is_loading && is_none rows)
            (shows (codes "No tokens match your filter.") ∷ []))
