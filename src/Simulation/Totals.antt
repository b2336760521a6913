-- ===== src/Simulation/Totals.antt =====
-- The counters of the bot.
use energy_chain.Shared.{
  ℕ, suc, ◌+◌, ◌≡◌, refl, Bool, true, false, List, [], ◌∷◌, if◌then◌else◌, length, arith,
}
use energy_chain.Simulation.{
  Config, Draw, Trade, buy, sell, trade_of, Counts, count_trade, run_phase,
}

-- The trades that failed.
abbrev pub failures : List (Draw × Bool) → ℕ
failures [] = 0
failures ((d, true) ∷ draws) = failures draws
failures ((d, false) ∷ draws) = suc (failures draws)

count_trade-sums :
    (t : Trade) (done : Bool) (c : Counts)
    → let d = count_trade t done c in
      (d.total_trades ≡ suc c.total_trades)
      × (d.buy_count + d.sell_count ≡ c.buy_count + c.sell_count + (if done then 1 else 0))
unfolding count_trade
count_trade-sums t false c = (refl, omega arith)
count_trade-sums (buy amount) true c = (refl, omega arith)
count_trade-sums (sell amount) true c = (refl, omega arith)

-- A phase counts each of its trades once: the total grows by the number of trades, and the trades
-- that were bought and sold, together with those that failed, are as many as that.
pub run_phase-counts :
    (cfg : Config) (draws : List (Draw × Bool)) (c : Counts)
    → let d = run_phase cfg draws c in
      (d.total_trades ≡ c.total_trades + length draws)
      × (d.buy_count + d.sell_count + failures draws ≡ c.buy_count + c.sell_count + length draws)
unfolding run_phase
run_phase-counts cfg [] c = (omega arith, omega arith)
run_phase-counts cfg ((d, true) ∷ draws) c =
    let next = count_trade (trade_of cfg d) true c in
    let (total, sides) = run_phase-counts cfg draws next in
    let (one, side) = count_trade-sums (trade_of cfg d) true c in (omega arith, omega arith)
run_phase-counts cfg ((d, false) ∷ draws) c =
    let next = count_trade (trade_of cfg d) false c in
    let (total, sides) = run_phase-counts cfg draws next in
    let (one, side) = count_trade-sums (trade_of cfg d) false c in (omega arith, omega arith)
