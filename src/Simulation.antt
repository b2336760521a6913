-- ===== src/Simulation.antt =====
-- The trading bot of contracts/scripts/simulate_trades.ts: its phases, the trades that it draws,
-- its counters, and in Calls its calls of the router. `Math.random()` is k / 2 ^ 53 for a drawn k below 2 ^ 53; the roundings of the
-- floating-point products are left out. Amounts are in hundredths.
pub mod Totals
pub mod Bounds
pub mod Calls
pub mod Rounds
use energy_chain.Shared.{
  ℕ, zero, suc, ◌+◌, ◌-◌, ◌*◌, ◌/◌, ◌%◌, ◌≤◌, ◌<◌, ◌≡◌, refl, ap, ◌∙◌, Bool, true, false, List, [],
  ◌∷◌, Option, none, some, ltb, if◌then◌else◌, length, arith, Bool-cases, inl, inr,
}

-- `Phase`
pub data Phase : Type 0 where
  accumulate rally consolidate pullback breakout : Phase

-- An entry of `PHASE_CONFIG`; `buy_pct` is in percent.
pub record Config : Type 0 where
  pub buy_pct : ℕ
  pub buy_min : ℕ
  pub buy_max : ℕ
  pub sell_min : ℕ
  pub sell_max : ℕ
  pub min_delay : ℕ
  pub max_delay : ℕ

-- `PHASE_CONFIG`
unfoldable pub phase_config : Phase → Config
phase_config accumulate = record {
  buy_pct = 75;
  buy_min = 200;
  buy_max = 800;
  sell_min = 10;
  sell_max = 60;
  min_delay = 2000;
  max_delay = 5000;
}
phase_config rally = record {
  buy_pct = 90;
  buy_min = 500;
  buy_max = 2500;
  sell_min = 15;
  sell_max = 80;
  min_delay = 1000;
  max_delay = 3000;
}
phase_config consolidate = record {
  buy_pct = 60;
  buy_min = 100;
  buy_max = 500;
  sell_min = 8;
  sell_max = 50;
  min_delay = 3000;
  max_delay = 7000;
}
phase_config pullback = record {
  buy_pct = 40;
  buy_min = 150;
  buy_max = 600;
  sell_min = 20;
  sell_max = 100;
  min_delay = 2000;
  max_delay = 5000;
}
phase_config breakout = record {
  buy_pct = 93;
  buy_min = 800;
  buy_max = 3500;
  sell_min = 10;
  sell_max = 50;
  min_delay = 800;
  max_delay = 2500;
}

-- `PHASE_ORDER`
abbrev pub phase_order : List Phase
phase_order = accumulate ∷ rally ∷ consolidate ∷ pullback ∷ rally ∷ breakout ∷ consolidate ∷ []

abbrev pub item : ℕ → List Phase → Option Phase
item n [] = none
item zero (p ∷ ps) = some p
item (suc n) (p ∷ ps) = item n ps

-- The phase of a round, counted from 1: `PHASE_ORDER[(round - 1) % PHASE_ORDER.length]`
unfoldable pub phase_of : ℕ → Option Phase
phase_of round = item ((round - 1) % 7) phase_order

-- What is drawn for one trade.
pub record Draw : Type 0 where
  pub side : ℕ
  pub amount : ℕ
  pub delay : ℕ

-- 2 ^ 53
abbrev pub scale : ℕ
scale = 9007199254740992

-- `randInt(min, max)`
unfoldable pub rand_int : ℕ → ℕ → ℕ → ℕ
rand_int k min max = k * (max - min) / scale + min

-- The wait behind a trade, in milliseconds.
unfoldable pub delay_of : Config → Draw → ℕ
unfolding rand_int
delay_of cfg d = rand_int d.delay cfg.min_delay cfg.max_delay

-- `Math.round(rand(min, max) * 100) / 100`, in hundredths
unfoldable pub rand_amount : ℕ → ℕ → ℕ → ℕ
rand_amount k min max = (2 * (k * ((max - min) * 100)) + scale) / (2 * scale) + min * 100

-- A trade, with the amount that is paid.
pub data Trade : Type 0 where
  buy sell : (amount : ℕ) → Trade

unfoldable pub trade_of : Config → Draw → Trade
unfolding rand_amount
trade_of cfg d =
    if ltb (d.side * 100) (cfg.buy_pct * scale)
    then buy (rand_amount d.amount cfg.buy_min cfg.buy_max)
    else sell (rand_amount d.amount cfg.sell_min cfg.sell_max)

-- The counters of `main`.
pub record Counts : Type 0 where
  pub total_trades : ℕ
  pub buy_count : ℕ
  pub sell_count : ℕ

-- One round of the inner loop. `done` says that no call of the router threw.
unfoldable pub count_trade : Trade → Bool → Counts → Counts
count_trade t false c = record c { total_trades = suc c.total_trades }
count_trade (buy amount) true c = record c {
  total_trades = suc c.total_trades;
  buy_count = suc c.buy_count;
}
count_trade (sell amount) true c = record c {
  total_trades = suc c.total_trades;
  sell_count = suc c.sell_count;
}

-- The inner loop, over what is drawn for each trade and how its calls end.
unfoldable pub run_phase : Config → List (Draw × Bool) → Counts → Counts
unfolding count_trade
run_phase cfg [] c = c
run_phase cfg ((d, done) ∷ draws) c = run_phase cfg draws (count_trade (trade_of cfg d) done c)
