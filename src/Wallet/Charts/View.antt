-- ===== src/Wallet/Charts/View.antt =====
-- What `ChartsPage` of dex-frontend/src/pages/ChartsPage.tsx renders, with the buttons of `TradingChart`
-- of dex-frontend/src/components/charts/TradingChart.tsx. The drawing of the chart is the library's.
use energy_chain.Shared.{ℕ, Bool, false, not, List, [], ◌∷◌, ◌++◌, length, if◌then◌else◌}
use energy_chain.Shared.Text.{Text, codes, text_eq}
use energy_chain.Shared.Number.{to_string}
use energy_chain.Price.Float.{Float}
use energy_chain.Wallet.Markup.{Item, shows, button, choice, words, when}
use energy_chain.Wallet.Selector.View.{is_none}
use energy_chain.Wallet.Charts.Trades.{Side, buy, sell, Trade, recent_trades}
use energy_chain.Wallet.Charts.Figures.{Stats, stats}

-- What the page can cause: both fetches, and `setSelectedInterval`.
pub data Click : Type 0 where
  refetches : Click
  selects : (interval : Text) → Click

-- `INTERVALS`
unfoldable pub intervals : List Text
intervals = codes "1m" ∷ codes "5m" ∷ codes "15m" ∷ codes "1h" ∷ codes "4h" ∷ codes "1d" ∷ []

unfoldable pub interval_items : Text → List Text → List (Item Click)
interval_items interval [] = []
interval_items interval (iv ∷ ivs) =
    choice (text_eq interval iv) (selects iv) (iv ∷ []) ∷ interval_items interval ivs

unfoldable pub side_text : Side → Text
side_text buy = codes "Buy"
side_text sell = codes "Sell"

-- `to_fixed k x` is `x.toFixed(k)`, and `time_text` prints a time by `toLocaleTimeString`.
module _ (num : Float) (units : ℕ → num.F) (ten : num.F) (usdt : Text) (to_fixed : ℕ → num.F → Text)
    (time_text : ℕ → Text) where
  -- A figure that is not above zero is a dash.
  unfoldable pub figure_text : ℕ → num.F → Text
  figure_text k x = if num.less num.zero_f x then to_fixed k x ++ codes " USDT" else codes "—"

  unfoldable pub figure_items : Stats num units ten usdt → List (Item Click)
  figure_items s =
      shows (codes "Price")
      ∷ shows (figure_text 4 s.price)
      ∷ shows (codes "Total Volume")
      ∷ shows (figure_text 2 s.total_vol)
      ∷ shows (codes "High")
      ∷ shows (figure_text 4 s.high)
      ∷ shows (codes "Low")
      ∷ shows (figure_text 4 s.low)
      ∷ []

  -- A row of the table of trades.
  unfoldable pub trade_items : List (Trade num units) → List (Item Click)
  trade_items [] = []
  trade_items (t ∷ trades) =
      shows (time_text t.timestamp)
      ∷ shows (side_text t.side)
      ∷ shows (to_fixed 4 t.price)
      ∷ shows (to_fixed 4 t.amount_ecy)
      ∷ shows (to_fixed 2 t.amount_usdt)
      ∷ trade_items trades

  unfoldable pub trades_panel : Bool → List (Trade num units) → List (Item Click)
  trades_panel is_loading trades =
      let recent = recent_trades num units trades in
      shows (codes "Recent Trades ")
      ∷ (when (not (is_none trades))
            (shows (codes "(" ++ (to_string (length trades) ++ codes " total)")) ∷ [])
          ++ (if is_none recent
              then shows (
                  if is_loading
                  then codes "Loading trades..."
                  else codes "No trades yet. Make a swap to see trades here.")
                ∷ []
              else shows (codes "Time")
                ∷ shows (codes "Side")
                ∷ shows (codes "Price (USDT)")
                ∷ shows (codes "Amount (ECY)")
                ∷ shows (codes "Total (USDT)")
                ∷ trade_items recent))

  unfoldable pub charts_page : Bool → Text → num.F → List (Trade num units) → List (Item Click)
  charts_page is_loading interval current trades =
      (shows (codes "Charts")
        ∷ button false refetches (words (codes "Refresh"))
        ∷ shows (codes "ECY / USDT")
        ∷ [])
      ++ (figure_items (stats num units ten usdt current trades)
          ++ (interval_items interval intervals ++ trades_panel is_loading trades))
