-- ===== src/Price/Buckets.antt =====
-- The buckets of `generateOHLCV` in dex-indexer/src/services/PriceService.ts: a `Map` from the start
-- of an interval to its candle, in the order of insertion.
pub mod Grouping
pub mod Flat
pub mod Bounds
use energy_chain.Shared.{
  ℕ, ◌*◌, ◌/◌, Bool, true, false, List, [], ◌∷◌, Option, none, some, ◌==◌, if◌then◌else◌,
}
use energy_chain.Shared.Text.{Text}
use energy_chain.Indexer.Data.{SwapRow}
use energy_chain.Price.Float.{Float}
use energy_chain.Price.Candle.{Candle, new_candle, extend_candle, interval_ms}

-- `Math.floor(s.timestamp.getTime() / ms) * ms`
abbrev pub bucket_start : ℕ → SwapRow → ℕ
bucket_start ms s = s.timestamp / ms * ms

module _ (num : Float) where
  abbrev pub Buckets : Type 0
  Buckets = List (ℕ × Candle num)

  -- `buckets.get(ts)`
  unfoldable pub candle_at : ℕ → Buckets → Option (Candle num)
  candle_at ts [] = none
  candle_at ts ((t, c) ∷ m) = if t == ts then some c else candle_at ts m

  -- The candle of a bucket that is there is changed in place, and a new bucket goes to the end.
  unfoldable pub put_swap : ℕ → SwapRow → Buckets → Buckets
  put_swap ts s [] = (ts, new_candle num s) ∷ []
  put_swap ts s ((t, c) ∷ m) =
      if t == ts then (t, extend_candle num c s) ∷ m else (t, c) ∷ put_swap ts s m

  unfoldable pub bucket_swaps : ℕ → Buckets → List SwapRow → Buckets
  bucket_swaps ms m [] = m
  bucket_swaps ms m (s ∷ swaps) = bucket_swaps ms (put_swap (bucket_start ms s) s m) swaps

  -- `lastCandle ? lastCandle.timestamp : new Date(0)`
  unfoldable pub since : Option ℕ → ℕ
  since none = 0
  since (some timestamp) = timestamp

  -- `generateOHLCV`: the candles that are upserted, each under its pair, its interval and the start
  -- of its bucket. `find_swaps t` is the database's answer for the swaps later than `t`.
  unfoldable pub generate_ohlcv : Bool → Text → Option ℕ → (ℕ → List SwapRow) → Buckets
  unfolding bucket_swaps put_swap since interval_ms
  generate_ohlcv found interval last_candle find_swaps =
      if found then bucket_swaps (interval_ms interval) [] (find_swaps (since last_candle)) else []
