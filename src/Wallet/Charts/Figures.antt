-- ===== src/Wallet/Charts/Figures.antt =====
-- The rest of `ChartsPage` of dex-frontend/src/pages/ChartsPage.tsx: the reserves and the current
-- price, what a fetch of the trades leaves, the chart without trades, and the figures above it.
use energy_chain.Shared.{
  ℕ, true, List, [], ◌∷◌, Option, none, some, map, foldl, last?, All, if◌then◌else◌,
}
use energy_chain.Shared.Text.{Text, text_eq, lower}
use energy_chain.Price.Float.{Float, IsFinite}
use energy_chain.Wallet.Pool.{◌>>=◌}
use energy_chain.Wallet.Pool.Amounts.{no_pair}
use energy_chain.Wallet.Charts.Trades.{TradeLog, trades_from, Trade, fetch_trades}
use energy_chain.Wallet.Charts.Bars.{Row, chart}

-- What the pair and the node answer; `none` is an exception.
pub record ChartChain : Type 0 where
  pub pair_token0 : Text → Option Text
  pub pair_reserves : Text → Option (ℕ × ℕ)
  pub latest_block : Option ℕ
  pub swap_logs : Text → ℕ → ℕ → Option (List TradeLog)
  pub block_time : ℕ → Option ℕ

module _ (num : Float) (units : ℕ → num.F) (ten : num.F) (usdt : Text) where
  open num use {F, zero_f, plus, over, max_f, min_f, less}

  -- `reserves` and `currentPrice`
  pub record Prices : Type 0 where
    pub usdt_reserve : F
    pub ecy_reserve : F
    pub current_price : F

  -- The body of the `try` of `fetchReserves`.
  unfoldable pub read_reserves : ChartChain → Text → Prices → Option Prices
  read_reserves c pair p = do
    token0 ← c.pair_token0 pair
    reserves ← c.pair_reserves pair
    let usdt_is_token0 = text_eq (lower token0) (lower usdt)
    let usdt_reserve = units (if usdt_is_token0 then reserves.0 else reserves.1)
    let ecy_reserve = units (if usdt_is_token0 then reserves.1 else reserves.0)
    some (record {
      usdt_reserve = usdt_reserve;
      ecy_reserve = ecy_reserve;
      current_price =
          if less zero_f ecy_reserve then over usdt_reserve ecy_reserve else p.current_price;
    })

  -- `fetchReserves`: an exception leaves what was there.
  unfoldable pub fetch_reserves : ChartChain → Option Text → Prices → Prices
  fetch_reserves c none p = p
  fetch_reserves c (some pair) p =
      if no_pair pair then p else elim (read_reserves c pair p) [ none ↦ p | some q ↦ q ]

  -- The body of the `try` of `fetchTrades`.
  unfoldable pub read_trades : ChartChain → (TradeLog → ℕ) → Text → Option (List (Trade num units))
  read_trades c now pair = do
    token0 ← c.pair_token0 pair
    latest ← c.latest_block
    logs ← c.swap_logs pair (trades_from latest) latest
    some (fetch_trades num units c.block_time now (text_eq (lower token0) (lower usdt)) logs)

  -- `fetchTrades`: an exception leaves the trades that were there.
  unfoldable pub load_trades :
      ChartChain → (TradeLog → ℕ) → Option Text → List (Trade num units) → List (Trade num units)
  load_trades c now none shown = shown
  load_trades c now (some pair) shown =
      if no_pair pair then shown else elim (read_trades c now pair) [ none ↦ shown | some ts ↦ ts ]

  -- The candle that stands where there are no trades; its colour is that of a rise.
  unfoldable pub placeholder : ℕ → F → Row num units
  placeholder now price =
      let p = if less zero_f price then price else ten in
      record {
        time = now;
        bar = record { open_price = p; high = p; low = p; close = p; volume = zero_f };
        is_up = true;
      }

  -- `candles` and `volumes`
  unfoldable pub candles : Text → ℕ → F → List (Trade num units) → Option (List (Row num units))
  candles interval now price [] = some (placeholder now price ∷ [])
  candles interval now price (t ∷ ts) = chart num units interval (t ∷ ts)

  -- `stats`
  pub record Stats : Type 0 where
    pub price : F
    pub total_vol : F
    pub high : F
    pub low : F

  -- `Math.max(...prices)` and `Math.min(...prices)` of a list that is not empty.
  unfoldable pub max_of : F → List F → F
  max_of p [] = p
  max_of p (q ∷ ps) = max_f p (max_of q ps)

  unfoldable pub min_of : F → List F → F
  min_of p [] = p
  min_of p (q ∷ ps) = min_f p (min_of q ps)

  abbrev pub price_or : F → Option (Trade num units) → F
  price_or price none = zero_f
  price_or price (some t) = t.price

  unfoldable pub stats : F → List (Trade num units) → Stats
  stats current trades =
      let price = if less zero_f current then current else price_or current (last? trades) in
      record {
        price = price;
        total_vol = foldl (λ s t. plus s t.amount_usdt) zero_f trades;
        high = elim (map (λ t. t.price) trades) as (λ _. F) [ [] ↦ price | p ∷ ps ↦ max_of p ps ];
        low = elim (map (λ t. t.price) trades) as (λ _. F) [ [] ↦ price | p ∷ ps ↦ min_of p ps ];
      }

  module _ (fin : IsFinite num) where
    open fin use {AtMost, at_most_refl, at_most_trans, max_left, max_right, min_left, min_right}

    abbrev pub AreBetween : F → F → List F → Type 0
    AreBetween low high ps = All (λ p. AtMost low p × AtMost p high) ps

    wider :
        (low low' high high' : F) (ps : List F)
        → AtMost low' low
        → AtMost high high'
        → AreBetween low high ps
        → AreBetween low' high' ps
    wider low low' high high' [] l h k = tt
    wider low low' high high' (p ∷ ps) l h ((below, above), k) = (
      (at_most_trans low' low p l below, at_most_trans p high high' above h),
      wider low low' high high' ps l h k,
    )

    max_min-AreBetween : (p : F) (ps : List F) → AreBetween (min_of p ps) (max_of p ps) (p ∷ ps)
    unfolding max_of min_of
    max_min-AreBetween p [] = ((at_most_refl p, at_most_refl p), tt)
    max_min-AreBetween p (q ∷ ps) = (
      (min_left p (min_of q ps), max_left p (max_of q ps)),
      wider (min_of q ps) (min_f p (min_of q ps)) (max_of q ps) (max_f p (max_of q ps)) (q ∷ ps)
          (min_right p (min_of q ps)) (max_right p (max_of q ps)) (max_min-AreBetween q ps),
    )

-- With finite numbers, the price of every trade lies between the low and the high above the chart.
stats-AreBetween :
    (num : Float) (units : ℕ → num.F) (ten : num.F) (usdt : Text) (fin : IsFinite num)
    (current : num.F) (trades : List (Trade num units))
    → let s = stats num units ten usdt current trades in
      AreBetween num units ten usdt fin s.low s.high (map (λ t. t.price) trades)
unfolding stats
stats-AreBetween num units ten usdt fin current [] = tt
stats-AreBetween num units ten usdt fin current (t ∷ trades) =
    max_min-AreBetween num units ten usdt fin t.price (map (λ t. t.price) trades)
