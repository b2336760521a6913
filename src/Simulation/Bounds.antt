-- ===== src/Simulation/Bounds.antt =====
-- The limits of what the bot draws, and the order of its phases.
use energy_chain.Shared.{
  ℕ, zero, suc, ◌+◌, ◌-◌, ◌*◌, ◌%◌, ◌≤◌, ◌<◌, ◌≡◌, refl, ap, ◌∙◌, some, ltb, arith, Bool-cases, inl,
  inr,
}
use energy_chain.Simulation.{
  Phase, accumulate, rally, consolidate, pullback, breakout, Config, phase_config, phase_order,
  item, phase_of, Draw, scale, rand_int, delay_of, rand_amount, Trade, buy, sell, trade_of,
}

scaled-le : (k n : ℕ) → k < scale → k * n ≤ scale * n
scaled-le k n h = grind arith

rand_amount-bounds :
    (k min max : ℕ)
    → k < scale
    → min ≤ max
    → (min * 100 ≤ rand_amount k min max) × (rand_amount k min max ≤ max * 100)
unfolding rand_amount
rand_amount-bounds k min max h le =
    let top = scaled-le k ((max - min) * 100) h in (omega arith, omega arith)

-- The amount lies between two numbers of whole units.
abbrev pub IsBetween : ℕ → ℕ → ℕ → Type 0
IsBetween min max amount = (min * 100 ≤ amount) × (amount ≤ max * 100)

-- The trade keeps the limits of its side.
abbrev pub IsWithin : Config → Trade → Type 0
IsWithin cfg (buy amount) = IsBetween cfg.buy_min cfg.buy_max amount
IsWithin cfg (sell amount) = IsBetween cfg.sell_min cfg.sell_max amount

trade_of-IsWithin_config :
    (cfg : Config) (d : Draw)
    → d.amount < scale
    → cfg.buy_min ≤ cfg.buy_max
    → cfg.sell_min ≤ cfg.sell_max
    → IsWithin cfg (trade_of cfg d)
unfolding trade_of
trade_of-IsWithin_config cfg d h b s =
    elim (Bool-cases (ltb (d.side * 100) (cfg.buy_pct * scale))) [
      | inl buys ↦ rw buys (rand_amount-bounds d.amount cfg.buy_min cfg.buy_max h b)
      | inr sells ↦ rw sells (rand_amount-bounds d.amount cfg.sell_min cfg.sell_max h s)
    ]

-- In every phase, whatever is drawn, the trade keeps the limits that the phase sets for its side.
pub trade_of-IsWithin :
    (p : Phase) (d : Draw)
    → d.amount < scale
    → IsWithin (phase_config p) (trade_of (phase_config p) d)
unfolding phase_config
trade_of-IsWithin accumulate d h = trade_of-IsWithin_config _ d h (omega arith) (omega arith)
trade_of-IsWithin rally d h = trade_of-IsWithin_config _ d h (omega arith) (omega arith)
trade_of-IsWithin consolidate d h = trade_of-IsWithin_config _ d h (omega arith) (omega arith)
trade_of-IsWithin pullback d h = trade_of-IsWithin_config _ d h (omega arith) (omega arith)
trade_of-IsWithin breakout d h = trade_of-IsWithin_config _ d h (omega arith) (omega arith)

item-order : (i : ℕ) → i < 7 → (p : Phase) × (item i phase_order ≡ some p)
item-order zero h = (accumulate, refl)
item-order (suc zero) h = (rally, refl)
item-order (suc (suc zero)) h = (consolidate, refl)
item-order (suc (suc (suc zero))) h = (pullback, refl)
item-order (suc (suc (suc (suc zero)))) h = (rally, refl)
item-order (suc (suc (suc (suc (suc zero))))) h = (breakout, refl)
item-order (suc (suc (suc (suc (suc (suc zero)))))) h = (consolidate, refl)
item-order (suc (suc (suc (suc (suc (suc (suc i))))))) h = absurd (omega arith)

-- Every round has its phase, and the round seven later has the same one.
pub phase_of-cycle :
    (round : ℕ)
    → 1 ≤ round
    → (p : Phase) × (phase_of round ≡ some p) × (phase_of (round + 7) ≡ some p)
unfolding phase_of
phase_of-cycle round h =
    let (p, e) = item-order ((round - 1) % 7) (omega arith) in
    let same : (round + 7 - 1) % 7 ≡ (round - 1) % 7 = omega arith in
    (p, e, ap (λ i. item i phase_order) same ∙ e)

scaled-lt : (k n : ℕ) → k < scale → 0 < n → k * n < scale * n
scaled-lt k n h p = grind arith

rand_int-bounds :
    (k min max : ℕ)
    → k < scale
    → min < max
    → (min ≤ rand_int k min max) × (rand_int k min max < max)
unfolding rand_int
rand_int-bounds k min max h lt =
    let below = scaled-lt k (max - min) h (omega arith) in (omega arith, omega arith)

-- In every phase, whatever is drawn, the wait is at least the least and below the greatest delay.
pub delay_of-bounds :
    (p : Phase) (d : Draw)
    → d.delay < scale
    → ((phase_config p).min_delay ≤ delay_of (phase_config p) d)
      × (delay_of (phase_config p) d < (phase_config p).max_delay)
unfolding delay_of phase_config
delay_of-bounds accumulate d h = rand_int-bounds d.delay 2000 5000 h (omega arith)
delay_of-bounds rally d h = rand_int-bounds d.delay 1000 3000 h (omega arith)
delay_of-bounds consolidate d h = rand_int-bounds d.delay 3000 7000 h (omega arith)
delay_of-bounds pullback d h = rand_int-bounds d.delay 2000 5000 h (omega arith)
delay_of-bounds breakout d h = rand_int-bounds d.delay 800 2500 h (omega arith)
