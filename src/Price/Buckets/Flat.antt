-- ===== src/Price/Buckets/Flat.antt =====
-- The candles of the swaps that the indexer stores.
use energy_chain.Shared.{
  ℕ, ◌≡◌, sym, ap, ◌∙◌, subst, Bool, true, ◌⊎◌, List, [], ◌∷◌, Option, none, some, All, foldl,
  Bool-cases, inl, inr, arith,
}
use energy_chain.Shared.Text.{Text}
use energy_chain.Indexer.Data.{SwapRow, SwapArgs, Log}
use energy_chain.Indexer.Events.{swap_row}
use energy_chain.Price.Float.{Float, IsFinite}
use energy_chain.Price.Candle.{Candle, price_of, new_candle, extend_candle, interval_ms}
use energy_chain.Price.Candle.Zero.{price_of-one_sided}
use energy_chain.Price.Buckets.{candle_at, since, generate_ohlcv}
use energy_chain.Price.Buckets.Grouping.{select, swaps_in, candle_of, generate_ohlcv-groups}

-- A row that the indexer stores of a swap that pays out only one of the two tokens.
pub record IsOneSided (s : SwapRow) : Type 0 where
  pub pair : Text
  pub log : Log SwapArgs
  pub args : SwapArgs
  pub time : ℕ
  pub stored : s ≡ swap_row pair log args time
  pub one_sided : (args.amount0_out ≡ 0) ⊎ (args.amount1_out ≡ 0)

select-All :
    (P : SwapRow → Type 0) (test : SwapRow → Bool) (swaps : List SwapRow)
    → All P swaps
    → All P (select test swaps)
select-All P test [] h = tt
select-All P test (s ∷ swaps) (p, h) = elim (Bool-cases (test s)) [
  | inl kept ↦ rw kept (p, select-All P test swaps h)
  | inr other ↦ rw other (select-All P test swaps h)
]

module _ (num : Float) (finite : IsFinite num) where
  price_zero : (s : SwapRow) → IsOneSided s → price_of num s ≡ num.zero_f
  price_zero s h =
      ap (price_of num) h.stored
      ∙ price_of-one_sided num finite h.pair h.log h.args h.time h.one_sided

  -- Opened and closed at zero.
  abbrev pub IsFlat : Candle num → Type 0
  IsFlat c = (c.open_price ≡ num.zero_f) × (c.close ≡ num.zero_f)

  fold-IsFlat :
      (c : Candle num) (swaps : List SwapRow)
      → IsFlat c
      → All IsOneSided swaps
      → IsFlat (foldl (extend_candle num) c swaps)
  unfolding extend_candle
  fold-IsFlat c [] flat h = flat
  fold-IsFlat c (s ∷ swaps) flat (p, h) =
      fold-IsFlat (extend_candle num c s) swaps (flat.0, price_zero s p) h

  candle_of-IsFlat :
      (swaps : List SwapRow) (c : Candle num)
      → All IsOneSided swaps
      → candle_of num swaps ≡ some c
      → IsFlat c
  unfolding new_candle
  candle_of-IsFlat [] c h e = absurd (ground arith)
  candle_of-IsFlat (s ∷ swaps) c (p, h) e =
      subst (λ o. elim o as (λ _. Type 0) [ none ↦ Unit | some c ↦ IsFlat c ]) e
        (fold-IsFlat (new_candle num s) swaps (price_zero s p, price_zero s p) h)

-- With finite numbers: where every swap found for a pair is a row that the indexer stores of a swap
-- that pays out only one of the two tokens, every candle that is generated opens and closes at 0,
-- whatever was traded.
pub generate_ohlcv-IsFlat :
    (num : Float) (finite : IsFinite num) (interval : Text) (last : Option ℕ)
    (find_swaps : ℕ → List SwapRow) (ts : ℕ) (c : Candle num)
    → All IsOneSided (find_swaps (since num last))
    → candle_at num ts (generate_ohlcv num true interval last find_swaps) ≡ some c
    → IsFlat num finite c
generate_ohlcv-IsFlat num finite interval last find_swaps ts c h e =
    candle_of-IsFlat num finite (swaps_in (interval_ms interval) ts (find_swaps (since num last))) c
      (select-All IsOneSided _ (find_swaps (since num last)) h)
      (sym (generate_ohlcv-groups num interval last find_swaps ts) ∙ e)
