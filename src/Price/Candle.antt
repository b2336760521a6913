-- ===== src/Price/Candle.antt =====
-- Prices, volumes and candles: `generateOHLCV` and `updatePairStats` of
-- dex-indexer/src/services/PriceService.ts, on the rows that the database returns.
pub mod Zero
use energy_chain.Shared.{
  ℕ, ◌+◌, ◌-◌, ◌*◌, ◌/◌, Bool, true, false, List, [], ◌∷◌, Option, none, some, ◌==◌, if◌then◌else◌,
  length,
}
use energy_chain.Shared.Text.{Text, codes, text_eq}
use energy_chain.Indexer.Data.{SwapRow}
use energy_chain.Price.Float.{Float}

-- `a || b` on strings: the empty one is falsy.
abbrev pub or_text : Text → Text → Text
or_text [] b = b
or_text (c ∷ a) b = c ∷ a

-- `intervalMs[interval] || 3_600_000`
unfoldable pub interval_ms : Text → ℕ
interval_ms interval =
    if text_eq interval (codes "1m")
    then 60_000
    else if text_eq interval (codes "5m")
    then 300_000
    else if text_eq interval (codes "15m")
    then 900_000
    else if text_eq interval (codes "1h")
    then 3_600_000
    else if text_eq interval (codes "4h")
    then 14_400_000
    else if text_eq interval (codes "1d")
    then 86_400_000
    else 3_600_000

module _ (num : Float) where
  open num use {F, zero_f, plus, over, max_f, min_f, less, ether}

  pub record Candle : Type 0 where
    pub open_price : F
    pub high : F
    pub low : F
    pub close : F
    pub volume : F

  abbrev amount0 : SwapRow → F
  amount0 s = ether (or_text (or_text s.amount0_out s.amount0_in) (codes "0"))

  abbrev amount1 : SwapRow → F
  amount1 s = ether (or_text (or_text s.amount1_out s.amount1_in) (codes "0"))

  -- `r1 > 0 ? r0 / r1 : 0`
  unfoldable pub price_of : SwapRow → F
  price_of s = if less zero_f (amount1 s) then over (amount0 s) (amount1 s) else zero_f

  unfoldable pub volume_of : SwapRow → F
  volume_of s = max_f (amount0 s) (amount1 s)

  -- The candle of a bucket's first swap.
  unfoldable pub new_candle : SwapRow → Candle
  new_candle s = record {
    open_price = price_of s;
    high = price_of s;
    low = price_of s;
    close = price_of s;
    volume = volume_of s;
  }

  -- A later swap of the bucket.
  unfoldable pub extend_candle : Candle → SwapRow → Candle
  extend_candle b s = record b {
    high = max_f b.high (price_of s);
    low = min_f b.low (price_of s);
    close = price_of s;
    volume = plus b.volume (volume_of s);
  }

  -- One swap of the sum in `updatePairStats`.
  unfoldable pub traded : SwapRow → F
  traded s =
      max_f
        (plus (ether (or_text s.amount0_in (codes "0")))
          (ether (or_text s.amount0_out (codes "0"))))
        (plus (ether (or_text s.amount1_in (codes "0")))
          (ether (or_text s.amount1_out (codes "0"))))

  unfoldable pub volume_from : F → List SwapRow → F
  volume_from acc [] = acc
  volume_from acc (s ∷ swaps) = volume_from (plus acc (traded s)) swaps

  -- `updatePairStats`: the update of the pair, if there is one, from the swaps since a day ago.
  unfoldable pub update_pair_stats : Bool → ℕ → (ℕ → List SwapRow) → Option (F × ℕ)
  update_pair_stats found now find_swaps =
      let swaps = find_swaps (now - 24 * 60 * 60 * 1000) in
      if found then some (volume_from zero_f swaps, length swaps) else none

  -- `getTokenPrice`: the price column of the token, if the token is there.
  unfoldable pub get_token_price : Option F → F
  get_token_price none = zero_f
  get_token_price (some price_usd) = price_usd
