-- ===== src/Tests/Rounds.antt =====
-- The periodic update on a database with one pair.
use energy_chain.Shared.{ℕ, ◌≡◌, refl, ◌&&◌, [], ◌∷◌, none, ltb, ◌+◌, ◌/◌, if◌then◌else◌, some}
use energy_chain.Shared.Int.{pos}
use energy_chain.Shared.Text.{Text, codes, text_eq}
use energy_chain.Shared.Number.{parse_int}
use energy_chain.Price.Float.{Float}
use energy_chain.Price.Candle.{interval_ms}
use energy_chain.Price.Buckets.{candle_at, since}
use energy_chain.Price.Buckets.Grouping.{swaps_in, candle_of}
use energy_chain.Price.Rounds.{Db, generate, last_candle, run_job}
use energy_chain.Price.Rounds.Stored.{or_else, generate-stores}
use energy_chain.Indexer.Data.{SwapRow}
use energy_chain.Tests.Node.{pair}

abbrev whole : Float
whole = record {
  F = ℕ;
  zero_f = 0;
  plus = λ a b. a + b;
  over = λ a b. a / b;
  max_f = λ a b. if ltb a b then b else a;
  min_f = λ a b. if ltb a b then a else b;
  less = λ a b. ltb a b;
  ether = λ s. elim (parse_int s) as (λ _. ℕ) [ some (pos n) ↦ n | _ ↦ 0 ];
}

abbrev swap : SwapRow
swap = record {
  pair_addr = pair;
  tx_hash = codes "0x1";
  sender = codes "0xS";
  amount0_in = codes "0";
  amount1_in = codes "0";
  amount0_out = codes "12";
  amount1_out = codes "2";
  to = codes "0xT";
  block_number = 3;
  timestamp = 130_000;
}

abbrev db : Db whole
db = record {
  pairs = pair ∷ [];
  swaps_after = λ p t. if ltb t 130_000 then swap ∷ [] else [];
  swaps_since = λ p t. [];
  candles = λ p i. [];
  stats = λ p. none;
}

generate-stores_example :
    let after = run_job whole 200_000 (generate pair (codes "1m")) db in
    ((ts : ℕ)
      → candle_at whole ts (after.candles pair (codes "1m"))
        ≡ or_else
            (candle_of whole (
              swaps_in
                (interval_ms (codes "1m"))
                ts
                (db.swaps_after pair (since whole (last_candle whole [])))))
            (candle_at whole ts []))
    × ((q j : Text)
        → after.candles q j ≡ (
            if text_eq q pair && text_eq j (codes "1m")
            then after.candles pair (codes "1m")
            else []))
generate-stores_example = generate-stores whole 200_000 pair (codes "1m") db refl
