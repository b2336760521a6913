-- ===== src/Tests/Charts.antt =====
-- The charts on a few trades, with whole numbers for the numbers.
use energy_chain.Shared.{
  ℕ, ◌+◌, ◌*◌, ◌/◌, ◌≡◌, refl, true, List, [], ◌∷◌, Option, none, some, map, ltb, if◌then◌else◌,
  ◌==◌,
}
use energy_chain.Shared.Text.{codes}
use energy_chain.Price.Float.{Float}
use energy_chain.Wallet.Charts.Trades.{
  TradeLog, Trade, trade_record, fetch_trades, sort_by, insert_by, unique_blocks, cache_blocks,
  cache_batch, cached, trade_of, log_time,
}
use energy_chain.Wallet.Charts.Bars.{
  chart, Row, bars_of, put_trade, sorted_keys, chart_rows, bar_at, bucket_seconds,
}
use energy_chain.Wallet.Charts.Blocks.{own_block}
use energy_chain.Wallet.Charts.Times.{fetch_trades-eq}
use energy_chain.Wallet.Charts.Ascending.{IsAscending, times, chart-IsAscending}

abbrev whole : Float
whole = record {
  F = ℕ;
  zero_f = 0;
  plus = λ a b. a + b;
  over = λ a b. a / b;
  max_f = λ a b. if ltb a b then b else a;
  min_f = λ a b. if ltb a b then a else b;
  less = λ a b. ltb a b;
  ether = λ s. 0;
}

abbrev unit : ℕ → ℕ
unit a = a

-- A trade that buys for 12 dollars, in a block.
abbrev bought : ℕ → ℕ → TradeLog
bought b out = record {
  amount0_in = some 12;
  amount1_in = some 0;
  amount0_out = some 0;
  amount1_out = some out;
  block_number = b;
  transaction_hash = some (codes "0x1");
}

abbrev logs : List TradeLog
logs = bought 8 2 ∷ bought 9 3 ∷ bought 8 4 ∷ []

-- Block 9 is not read.
abbrev clock : ℕ → Option ℕ
clock b = if b == 9 then none else some 100

abbrev trades : List (Trade whole unit)
trades = fetch_trades whole unit clock (λ log. 70) true logs

charts : Unit {0}
unfolding fetch_trades sort_by insert_by trade_record trade_of log_time unique_blocks cache_blocks
    cache_batch cached chart bars_of put_trade sorted_keys chart_rows bar_at bucket_seconds
charts = tt

-- The trade of the block that is not read comes first, at the time of the clock.
trade_times :
    map (λ (t : Trade whole unit). t.timestamp * 10 + t.price) trades ≡ 704 ∷ 1006 ∷ 1003 ∷ []
unfolding charts
trade_times = refl

fetch_trades-eq_example :
    trades
    ≡ sort_by
        (λ t. t.timestamp)
        (map (λ log. trade_record whole unit true (own_block clock log) (λ log'. 70) log) logs)
fetch_trades-eq_example = fetch_trades-eq whole unit clock (λ log. 70) true logs

chart-IsAscending_example :
    (rows : List (Row whole unit)) × (chart whole unit (codes "1m") trades ≡ some rows)
    × IsAscending (times whole unit rows)
chart-IsAscending_example = chart-IsAscending whole unit (codes "1m") trades
