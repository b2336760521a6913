-- ===== src/Tests/Prices.antt =====
-- The price service on three swaps, with whole numbers for the numbers.
use energy_chain.Shared.{
  ℕ, ◌+◌, ◌*◌, ◌/◌, ◌≤◌, ◌≡◌, refl, true, List, [], ◌∷◌, Option, none, some, ltb, arith, inl,
  if◌then◌else◌,
}
use energy_chain.Shared.Int.{pos}
use energy_chain.Shared.Text.{Text, codes}
use energy_chain.Shared.Number.{parse_int, to_string}
use energy_chain.Indexer.Data.{SwapRow}
use energy_chain.Indexer.Events.{swap_row}
use energy_chain.Price.Float.{Float, IsFinite}
use energy_chain.Price.Candle.{Candle, price_of, new_candle, extend_candle, volume_of, interval_ms}
use energy_chain.Price.Buckets.Flat.{generate_ohlcv-IsFlat}
use energy_chain.Price.Buckets.{candle_at, put_swap, bucket_swaps, since, generate_ohlcv}
use energy_chain.Price.Buckets.Grouping.{
  swaps_in, candle_of, later_than, generate_ohlcv-groups, regenerate-drops_first,
}
use energy_chain.Price.Buckets.Bounds.{IsCandleOf, generate_ohlcv-IsCandleOf}
use energy_chain.Tests.Node.{pair, swap_log, swap_args}

-- Whole numbers, and texts read as they are.
abbrev whole : Float
whole = record {
  F = ℕ;
  zero_f = 0;
  plus = λ a b. a + b;
  over = λ a b. a / b;
  max_f = λ a b. if ltb a b then b else a;
  min_f = λ a b. if ltb a b then a else b;
  less = λ a b. ltb a b;
  ether = λ s. elim (parse_int s) as (λ _. ℕ) [ some (pos n) ↦ n | _ ↦ 0 ];
}

whole-IsFinite : IsFinite whole
unfolding parse_int
whole-IsFinite = record {
  AtMost = λ a b. a ≤ b;
  at_most_refl = λ a. omega arith;
  at_most_trans = λ a b c p q. omega arith;
  max_left = λ a b. ground arith;
  max_right = λ a b. ground arith;
  min_left = λ a b. ground arith;
  min_right = λ a b. ground arith;
  ether_zero = refl;
  zero_not_less = refl;
  zero_over = λ a h. ground arith;
}

-- A swap at a time, with both amounts out.
abbrev swap_at : ℕ → Text → Text → SwapRow
swap_at time out0 out1 = record {
  pair_addr = pair;
  tx_hash = codes "0x1";
  sender = codes "0xS";
  amount0_in = codes "0";
  amount1_in = codes "0";
  amount0_out = out0;
  amount1_out = out1;
  to = codes "0xT";
  timestamp = time;
  block_number = 3;
}

abbrev opening_swap : SwapRow
opening_swap = swap_at 120_000 (codes "12") (codes "2")

abbrev later : List SwapRow
later = swap_at 130_000 (codes "9") (codes "3") ∷ swap_at 200_000 (codes "8") (codes "1") ∷ []

abbrev found : ℕ → List SwapRow
found = later_than (opening_swap ∷ later)

abbrev minute : Option (Candle whole)
minute = candle_at whole 120_000 (generate_ohlcv whole true (codes "1m") none found)

-- Everything that a run of the price service computes with.
prices : Unit {0}
unfolding generate_ohlcv bucket_swaps put_swap candle_at since interval_ms price_of new_candle
    extend_candle volume_of parse_int
prices = tt

-- The first two swaps share a minute: the price falls from 6 to 3, and the volumes add up.
minute_candle : minute ≡ some (record { open_price = 6; high = 6; low = 3; close = 3; volume = 21 })
unfolding prices
minute_candle = refl

generate_ohlcv-groups_example :
    minute
    ≡ candle_of whole (swaps_in (interval_ms (codes "1m")) 120_000 (found (since whole none)))
generate_ohlcv-groups_example = generate_ohlcv-groups whole (codes "1m") none found 120_000

minute_start : 120_000 / interval_ms (codes "1m") * interval_ms (codes "1m") ≡ 120_000
unfolding interval_ms
minute_start = refl

regenerate-drops_first_example :
    (candle_at whole 120_000 (generate_ohlcv whole true (codes "1m") none found)
      ≡ candle_of whole
          (opening_swap ∷ swaps_in (interval_ms (codes "1m")) 120_000 (later_than later 0)))
    × (candle_at whole 120_000 (generate_ohlcv whole true (codes "1m") (some 120_000) found)
        ≡ candle_of whole (swaps_in (interval_ms (codes "1m")) 120_000 (later_than later 120_000)))
regenerate-drops_first_example =
    regenerate-drops_first whole (codes "1m") opening_swap later (omega arith) minute_start

generate_ohlcv-IsCandleOf_example :
    IsCandleOf whole whole-IsFinite
      (record { open_price = 6; high = 6; low = 3; close = 3; volume = 21 })
      (swaps_in (interval_ms (codes "1m")) 120_000 (found (since whole none)))
generate_ohlcv-IsCandleOf_example =
    generate_ohlcv-IsCandleOf whole whole-IsFinite (codes "1m") none found 120_000
      (record { open_price = 6; high = 6; low = 3; close = 3; volume = 21 }) minute_candle

-- One ordinary swap as the indexer stores it: 7 of the first token for 5 of the second.
abbrev ordinary : ℕ → List SwapRow
ordinary t = swap_row pair swap_log swap_args 130_000 ∷ []

abbrev flat_candle : Candle whole
flat_candle = record { open_price = 0; high = 0; low = 0; close = 0; volume = 5 }

is_flat :
    candle_at whole 120_000 (generate_ohlcv whole true (codes "1m") none ordinary)
    ≡ some flat_candle
unfolding prices swap_row to_string
is_flat = refl

generate_ohlcv-IsFlat_example : (flat_candle.open_price ≡ 0) × (flat_candle.close ≡ 0)
generate_ohlcv-IsFlat_example =
    generate_ohlcv-IsFlat whole whole-IsFinite (codes "1m") none ordinary 120_000 flat_candle
      (
        record {
          pair = pair;
          log = swap_log;
          args = swap_args;
          time = 130_000;
          stored = refl;
          one_sided = inl refl;
        },
        tt,
      )
      is_flat
