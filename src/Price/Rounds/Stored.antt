-- ===== src/Price/Rounds/Stored.antt =====
-- What a run of `generateOHLCV` leaves in the candle table.
use energy_chain.Shared.{
  ℕ, ◌≡◌, refl, ap, sym, ◌∙◌, true, false, List, [], ◌∷◌, Option, none, some, inl, inr, ◌&&◌,
  Bool-cases, arith, ◌==◌, ==_iff, if◌then◌else◌,
}
use energy_chain.Shared.Text.{Text, text_eq, text_eq_refl}
use energy_chain.Indexer.Data.{SwapRow}
use energy_chain.Price.Float.{Float}
use energy_chain.Price.Candle.{Candle, interval_ms}
use energy_chain.Price.Buckets.{
  Buckets, bucket_start, candle_at, put_swap, bucket_swaps, since, generate_ohlcv,
}
use energy_chain.Price.Buckets.Grouping.{swaps_in, candle_of, generate_ohlcv-groups}
use energy_chain.Price.Rounds.{Db, is_pair, last_candle, upsert, upsert_all, generate, run_job}

-- The second one, where the first has nothing.
abbrev pub or_else {ℓ} : {A : Type ℓ} → Option A → Option A → Option A
or_else none b = b
or_else (some a) b = some a

module _ (num : Float) where
  -- No bucket comes twice.
  abbrev IsDistinct : Buckets num → Type 0
  IsDistinct [] = Unit
  IsDistinct ((t, c) ∷ m) = (candle_at num t m ≡ none) × IsDistinct m

  candle_at-upsert :
      (ts t : ℕ) (c : Candle num) (m : Buckets num)
      → candle_at num ts (upsert num t c m) ≡ (if t == ts then some c else candle_at num ts m)
  unfolding candle_at upsert
  candle_at-upsert ts t c [] = refl
  candle_at-upsert ts t c ((u, d) ∷ m) = ground (arith, candle_at-upsert ts t c m)

  candle_at-upsert_all :
      (ts : ℕ) (new m : Buckets num)
      → IsDistinct new
      → candle_at num ts (upsert_all num new m)
        ≡ or_else (candle_at num ts new) (candle_at num ts m)
  unfolding upsert_all candle_at
  candle_at-upsert_all ts [] m h = refl
  candle_at-upsert_all ts ((t, c) ∷ new) m (fresh, h) =
      candle_at-upsert_all ts new (upsert num t c m) h
      ∙ ap (or_else (candle_at num ts new)) (candle_at-upsert ts t c m)
      ∙ elim (Bool-cases (t == ts)) [
        | inl same ↦
            let gone : candle_at num ts new ≡ none =
              ap (λ u. candle_at num u new) (sym ((==_iff t ts).0 same)) ∙ fresh in
            rw (same, gone) refl
        | inr other ↦ rw other refl
      ]

  candle_at-put_other :
      (t k : ℕ) (s : SwapRow) (m : Buckets num)
      → (k == t) ≡ false
      → candle_at num t m ≡ none
      → candle_at num t (put_swap num k s m) ≡ none
  unfolding candle_at put_swap
  candle_at-put_other t k s [] ne h = ground arith
  candle_at-put_other t k s ((u, c) ∷ m) ne h = ground (arith, candle_at-put_other t k s m ne)

  put_swap-IsDistinct :
      (k : ℕ) (s : SwapRow) (m : Buckets num) → IsDistinct m → IsDistinct (put_swap num k s m)
  unfolding candle_at put_swap
  put_swap-IsDistinct k s [] h = (refl, tt)
  put_swap-IsDistinct k s ((u, c) ∷ m) (fresh, h) = elim (Bool-cases (u == k)) [
    | inl same ↦ rw same (fresh, h)
    | inr other ↦
        let ne : (k == u) ≡ false = ground arith in
        rw other (candle_at-put_other u k s m ne fresh, put_swap-IsDistinct k s m h)
  ]

  bucket_swaps-IsDistinct :
      (ms : ℕ) (m : Buckets num) (swaps : List SwapRow)
      → IsDistinct m
      → IsDistinct (bucket_swaps num ms m swaps)
  unfolding bucket_swaps
  bucket_swaps-IsDistinct ms m [] h = h
  bucket_swaps-IsDistinct ms m (s ∷ swaps) h =
      let k = bucket_start ms s in
      bucket_swaps-IsDistinct ms (put_swap num k s m) swaps (put_swap-IsDistinct k s m h)

-- A run for a pair that is there leaves, at each start of an interval, the candle of the swaps found
-- in that interval since the last candle, and where there are none the candle that was stored before.
-- The candles of every other pair and interval stay as they were.
pub generate-stores :
    (num : Float) (now : ℕ) (pair interval : Text) (db : Db num)
    → is_pair num db.pairs pair ≡ true
    → let after = run_job num now (generate pair interval) db in
      let old = db.candles pair interval in
      let found = db.swaps_after pair (since num (last_candle num old)) in
      ((ts : ℕ)
        → candle_at num ts (after.candles pair interval)
          ≡ or_else
              (candle_of num (swaps_in (interval_ms interval) ts found))
              (candle_at num ts old))
      × ((q j : Text)
          → after.candles q j ≡ (
              if text_eq q pair && text_eq j interval
              then after.candles pair interval
              else db.candles q j))
unfolding run_job generate_ohlcv
generate-stores num now pair interval db known =
    let old = db.candles pair interval in
    let new = generate_ohlcv num true interval (last_candle num old) (db.swaps_after pair) in
    (
      λ ts. rw (known) (
          rw (text_eq_refl pair, text_eq_refl interval)
            (candle_at-upsert_all num ts new old (
                bucket_swaps-IsDistinct num (interval_ms interval) []
                  (db.swaps_after pair (since num (last_candle num old))) tt)
              ∙ ap (λ o. or_else o (candle_at num ts old))
                  (generate_ohlcv-groups num interval (last_candle num old) (db.swaps_after pair)
                    ts))),
      λ q j. rw (text_eq_refl pair, text_eq_refl interval) refl,
    )
