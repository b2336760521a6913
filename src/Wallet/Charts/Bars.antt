-- ===== src/Wallet/Charts/Bars.antt =====
-- The candles of the chart in dex-frontend/src/pages/ChartsPage.tsx.
use energy_chain.Shared.{
  ℕ, ◌*◌, ◌/◌, Bool, not, List, [], ◌∷◌, Option, none, some, map, ◌==◌, if◌then◌else◌,
}
use energy_chain.Shared.Text.{Text, codes, text_eq}
use energy_chain.Price.Float.{Float}
use energy_chain.Wallet.Charts.Trades.{Trade, sort_by}

-- `INTERVALS[interval] ?? 60`
unfoldable pub bucket_seconds : Text → ℕ
bucket_seconds interval =
    if text_eq interval (codes "1m")
    then 60
    else if text_eq interval (codes "5m")
    then 300
    else if text_eq interval (codes "15m")
    then 900
    else if text_eq interval (codes "1h")
    then 3600
    else if text_eq interval (codes "4h")
    then 14400
    else if text_eq interval (codes "1d")
    then 86400
    else 60

-- `units` is `parseFloat(formatUnits(a, 18))`.
module _ (num : Float) (units : ℕ → num.F) where
  open num use {F, zero_f, plus, over, max_f, min_f, less}

  -- A bucket of the chart.
  pub record Bar : Type 0 where
    pub open_price : F
    pub high : F
    pub low : F
    pub close : F
    pub volume : F

  abbrev pub Bars : Type 0
  Bars = List (ℕ × Bar)

  unfoldable pub bar_at : Bars → ℕ → Option Bar
  bar_at [] k = none
  bar_at ((t, b) ∷ m) k = if t == k then some b else bar_at m k

  -- One round of the loop over the trades.
  unfoldable pub put_trade : ℕ → Trade num units → Bars → Bars
  put_trade k t [] =
      (
        k,
        record {
          open_price = t.price;
          high = t.price;
          low = t.price;
          close = t.price;
          volume = t.amount_usdt;
        },
      )
      ∷ []
  put_trade k t ((u, b) ∷ m) =
      if u == k
      then (
        u,
        record b {
          high = max_f b.high t.price;
          low = min_f b.low t.price;
          close = t.price;
          volume = plus b.volume t.amount_usdt;
        },
      )
        ∷ m
      else (u, b) ∷ put_trade k t m

  unfoldable pub bars_of : ℕ → Bars → List (Trade num units) → Bars
  unfolding put_trade
  bars_of seconds m [] = m
  bars_of seconds m (t ∷ ts) = bars_of seconds (put_trade (t.timestamp / seconds * seconds) t m) ts

  -- `sortedKeys`
  unfoldable pub sorted_keys : Bars → List ℕ
  sorted_keys m = sort_by (λ k. k) (map (λ e. e.0) m)

  -- A candle with its volume; `is_up` chooses the colour.
  pub record Row : Type 0 where
    pub time : ℕ
    pub bar : Bar
    pub is_up : Bool

  -- The last loop. `none` would be the exception of a key without a bucket.
  unfoldable pub chart_rows : Bars → List ℕ → Option (List Row)
  chart_rows m [] = some []
  chart_rows m (k ∷ ks) =
      let rest = chart_rows m ks in
      elim (bar_at m k) [
        | none ↦ none
        | some b ↦ elim rest [
          | none ↦ none
          | some rows ↦
              some (record { time = k; bar = b; is_up = not (less b.close b.open_price) } ∷ rows)
        ]
      ]

  -- `candles` and `volumes` where there are trades.
  unfoldable pub chart : Text → List (Trade num units) → Option (List Row)
  chart interval trades =
      let m = bars_of (bucket_seconds interval) [] trades in chart_rows m (sorted_keys m)
