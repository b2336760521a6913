-- ===== src/Price/Buckets/Bounds.antt =====
-- The prices of a candle.
use energy_chain.Shared.{ℕ, ◌≡◌, sym, ◌∙◌, subst, true, List, [], ◌∷◌, Option, some, All, foldl}
use energy_chain.Shared.Text.{Text}
use energy_chain.Indexer.Data.{SwapRow}
use energy_chain.Price.Float.{Float, IsFinite}
use energy_chain.Price.Candle.{Candle, price_of, new_candle, extend_candle, interval_ms}
use energy_chain.Price.Buckets.{candle_at, since, generate_ohlcv}
use energy_chain.Price.Buckets.Grouping.{swaps_in, candle_of, generate_ohlcv-groups}

module _ (num : Float) (finite : IsFinite num) where
  open finite use {AtMost, at_most_refl, at_most_trans, max_left, max_right, min_left, min_right}

  -- The price lies between the low and the high of the candle.
  abbrev pub Between : Candle num → num.F → Type 0
  Between c p = AtMost c.low p × AtMost p c.high

  -- The opening and the closing price, and the price of every swap, lie in the range.
  pub record IsCandleOf (c : Candle num) (swaps : List SwapRow) : Type 0 where
    pub opening : Between c c.open_price
    pub closing : Between c c.close
    pub prices : All (λ s. Between c (price_of num s)) swaps

  extend_widens :
      (c : Candle num) (s : SwapRow) (p : num.F) → Between c p → Between (extend_candle num c s) p
  unfolding extend_candle
  extend_widens c s p (low, high) = (
    at_most_trans _ _ _ (min_left c.low (price_of num s)) low,
    at_most_trans _ _ _ high (max_left c.high (price_of num s)),
  )

  extend_holds : (c : Candle num) (s : SwapRow) → Between (extend_candle num c s) (price_of num s)
  unfolding extend_candle
  extend_holds c s = (min_right c.low (price_of num s), max_right c.high (price_of num s))

  fold_widens :
      (c : Candle num) (swaps : List SwapRow) (p : num.F)
      → Between c p
      → Between (foldl (extend_candle num) c swaps) p
  fold_widens c [] p h = h
  fold_widens c (s ∷ swaps) p h =
      fold_widens (extend_candle num c s) swaps p (extend_widens c s p h)

  fold_prices :
      (c : Candle num) (swaps : List SwapRow)
      → All (λ s. Between (foldl (extend_candle num) c swaps) (price_of num s)) swaps
  fold_prices c [] = tt
  fold_prices c (s ∷ swaps) =
      let d = extend_candle num c s in
      (fold_widens d swaps (price_of num s) (extend_holds c s), fold_prices d swaps)

  fold_opening :
      (c : Candle num) (swaps : List SwapRow)
      → Between c c.open_price
      → let d = foldl (extend_candle num) c swaps in Between d d.open_price
  unfolding extend_candle
  fold_opening c [] h = h
  fold_opening c (s ∷ swaps) h =
      fold_opening (extend_candle num c s) swaps (extend_widens c s c.open_price h)

  fold_closing :
      (c : Candle num) (swaps : List SwapRow)
      → Between c c.close
      → let d = foldl (extend_candle num) c swaps in Between d d.close
  unfolding extend_candle
  fold_closing c [] h = h
  fold_closing c (s ∷ swaps) h = fold_closing (extend_candle num c s) swaps (extend_holds c s)

  candle_of-IsCandleOf :
      (swaps : List SwapRow) (c : Candle num) → candle_of num swaps ≡ some c → IsCandleOf c swaps
  unfolding new_candle
  candle_of-IsCandleOf [] c e = cc
  candle_of-IsCandleOf (s ∷ swaps) c e =
      let p = price_of num s in
      let made : foldl (extend_candle num) (new_candle num s) swaps ≡ c = cc in
      let start : Between (new_candle num s) p = (at_most_refl p, at_most_refl p) in
      subst (λ d. IsCandleOf d (s ∷ swaps)) (made)
        (record {
          opening = fold_opening (new_candle num s) swaps start;
          closing = fold_closing (new_candle num s) swaps start;
          prices =
              (fold_widens (new_candle num s) swaps p start, fold_prices (new_candle num s) swaps);
        })

-- With numbers that are finite, every candle that `generateOHLCV` upserts has its opening price, its
-- closing price and the price of each of its swaps between its low and its high.
pub generate_ohlcv-IsCandleOf :
    (num : Float) (finite : IsFinite num) (interval : Text) (last : Option ℕ)
    (find_swaps : ℕ → List SwapRow) (ts : ℕ) (c : Candle num)
    → candle_at num ts (generate_ohlcv num true interval last find_swaps) ≡ some c
    → IsCandleOf num finite c (swaps_in (interval_ms interval) ts (find_swaps (since num last)))
generate_ohlcv-IsCandleOf num finite interval last find_swaps ts c e =
    candle_of-IsCandleOf num finite _ c
      (sym (generate_ohlcv-groups num interval last find_swaps ts) ∙ e)
