-- ===== src/Price/Buckets/Grouping.antt =====
-- The buckets against their description: one candle for each interval with a swap, made of the
-- swaps of that interval in their order.
use energy_chain.Shared.{
  ℕ, ◌<◌, ◌≡◌, refl, ap, ◌∙◌, Bool, true, List, [], ◌∷◌, Option, none, some, ◌==◌, ==_iff,
  if◌then◌else◌, Bool-cases, inl, inr, arith, ltb, foldl,
}
use energy_chain.Shared.Text.{Text}
use energy_chain.Indexer.Data.{SwapRow}
use energy_chain.Price.Float.{Float}
use energy_chain.Price.Candle.{Candle, new_candle, extend_candle, interval_ms}
use energy_chain.Price.Buckets.{
  bucket_start, Buckets, candle_at, put_swap, bucket_swaps, since, generate_ohlcv,
}

-- The items that pass the test.
abbrev pub select {ℓ} : {A : Type ℓ} → (A → Bool) → List A → List A
select p [] = []
select p (x ∷ xs) = if p x then x ∷ select p xs else select p xs

-- The swaps of one interval.
abbrev pub swaps_in : ℕ → ℕ → List SwapRow → List SwapRow
swaps_in ms ts = select (λ s. bucket_start ms s == ts)

module _ (num : Float) where
  -- The candle of a list of swaps: opened by the first, and extended by the others.
  abbrev pub candle_of : List SwapRow → Option (Candle num)
  candle_of [] = none
  candle_of (s ∷ swaps) = some (foldl (extend_candle num) (new_candle num s) swaps)

  -- A candle that is there, extended by more swaps.
  abbrev more : Option (Candle num) → List SwapRow → Option (Candle num)
  more none swaps = candle_of swaps
  more (some c) swaps = some (foldl (extend_candle num) c swaps)

  abbrev step : Option (Candle num) → SwapRow → Option (Candle num)
  step none s = some (new_candle num s)
  step (some c) s = some (extend_candle num c s)

  candle_at-put_swap :
      (ts t : ℕ) (s : SwapRow) (m : Buckets num)
      → candle_at num ts (put_swap num t s m)
        ≡ (if t == ts then step (candle_at num t m) s else candle_at num ts m)
  unfolding candle_at put_swap
  candle_at-put_swap ts t s [] = refl
  candle_at-put_swap ts t s ((u, c) ∷ m) = ground (arith, candle_at-put_swap ts t s m)

  more-step :
      (o : Option (Candle num)) (s : SwapRow) (swaps : List SwapRow)
      → more (step o s) swaps ≡ more o (s ∷ swaps)
  more-step none s swaps = refl
  more-step (some c) s swaps = refl

  more-nil : (o : Option (Candle num)) → o ≡ more o []
  more-nil none = refl
  more-nil (some c) = refl

  -- One more swap, of the interval or of another one.
  candle_at-next :
      (ms ts : ℕ) (m : Buckets num) (s : SwapRow) (swaps : List SwapRow)
      → more (candle_at num ts (put_swap num (bucket_start ms s) s m)) (swaps_in ms ts swaps)
        ≡ more (candle_at num ts m) (swaps_in ms ts (s ∷ swaps))
  candle_at-next ms ts m s swaps =
      let rest = swaps_in ms ts swaps in
      elim (Bool-cases (bucket_start ms s == ts)) [
        | inl same ↦ rw (candle_at-put_swap ts (bucket_start ms s) s m) (
            rw same (
              ap (λ u. more (step (candle_at num u m) s) rest) ((==_iff _ ts).0 same)
              ∙ more-step (candle_at num ts m) s rest))
        | inr other ↦ rw (candle_at-put_swap ts (bucket_start ms s) s m) (rw other)
      ]

  candle_at-bucket_swaps :
      (ms ts : ℕ) (m : Buckets num) (swaps : List SwapRow)
      → candle_at num ts (bucket_swaps num ms m swaps)
        ≡ more (candle_at num ts m) (swaps_in ms ts swaps)
  unfolding bucket_swaps
  candle_at-bucket_swaps ms ts m [] = more-nil (candle_at num ts m)
  candle_at-bucket_swaps ms ts m (s ∷ swaps) =
      candle_at-bucket_swaps ms ts (put_swap num (bucket_start ms s) s m) swaps
      ∙ candle_at-next ms ts m s swaps

-- The candles that `generateOHLCV` upserts for a pair that is there are exactly these: at each start
-- of an interval the candle of the swaps of that interval among those found since the last candle,
-- opened by the first of them and extended by the others in their order, and none where there is no
-- such swap.
pub generate_ohlcv-groups :
    (num : Float) (interval : Text) (last : Option ℕ) (find_swaps : ℕ → List SwapRow) (ts : ℕ)
    → candle_at num ts (generate_ohlcv num true interval last find_swaps)
      ≡ candle_of num (swaps_in (interval_ms interval) ts (find_swaps (since num last)))
unfolding generate_ohlcv candle_at
generate_ohlcv-groups num interval last find_swaps ts =
    candle_at-bucket_swaps num (interval_ms interval) ts [] (find_swaps (since num last))

-- The database's answer for the swaps later than a time, from what it holds of the pair.
abbrev pub later_than : List SwapRow → ℕ → List SwapRow
later_than stored t = select (λ s. ltb t s.timestamp) stored

-- Let the first swap stored for a pair be made exactly at the start of an interval, after the epoch.
-- The first run makes the interval's candle from this swap and the others of the interval. A second
-- run, with that candle as the last one, makes it from the others alone, and the upsert overwrites.
pub regenerate-drops_first :
    (num : Float) (interval : Text) (first : SwapRow) (stored : List SwapRow)
    → 0 < first.timestamp
    → bucket_start (interval_ms interval) first ≡ first.timestamp
    → let ts = first.timestamp in
      let find = later_than (first ∷ stored) in
      (candle_at num ts (generate_ohlcv num true interval none find)
        ≡ candle_of num (first ∷ swaps_in (interval_ms interval) ts (later_than stored 0)))
      × (candle_at num ts (generate_ohlcv num true interval (some ts) find)
          ≡ candle_of num (swaps_in (interval_ms interval) ts (later_than stored ts)))
unfolding since
regenerate-drops_first num interval first stored positive aligned =
    let ts = first.timestamp in
    let ms = interval_ms interval in
    let find = later_than (first ∷ stored) in
    let fresh : swaps_in ms ts (find 0) ≡ first ∷ swaps_in ms ts (later_than stored 0) =
      ground arith in
    let again : swaps_in ms ts (find ts) ≡ swaps_in ms ts (later_than stored ts) = ground arith in
    (
      generate_ohlcv-groups num interval none find ts ∙ ap (candle_of num) fresh,
      generate_ohlcv-groups num interval (some ts) find ts ∙ ap (candle_of num) again,
    )
