-- ===== src/Price/Rounds.antt =====
-- The periodic update of dex-indexer/src/index.ts: the statistics and the candles of every pair, in
-- the candle and pair tables of the database.
pub mod Stored
pub mod Others
use energy_chain.Shared.{
  ℕ, zero, suc, Bool, true, false, ◌&&◌, List, [], ◌∷◌, ◌++◌, Option, none, some, ltb, ◌==◌,
  if◌then◌else◌, take, foldl, max,
}
use energy_chain.Shared.Text.{Text, codes, text_eq}
use energy_chain.Indexer.Data.{SwapRow}
use energy_chain.Price.Float.{Float}
use energy_chain.Price.Candle.{Candle, update_pair_stats}
use energy_chain.Price.Buckets.{Buckets, generate_ohlcv}

-- `updatePairStats(p.address)` and `generateOHLCV(p.address, interval)`
pub data Job : Type 0 where
  update_stats : (pair : Text) → Job
  generate : (pair interval : Text) → Job

-- The calls of one round, in their order.
unfoldable pub jobs : List Text → List Job
jobs [] = []
jobs (p ∷ pairs) =
    update_stats p
    ∷ generate p (codes "1m")
    ∷ generate p (codes "5m")
    ∷ generate p (codes "1h")
    ∷ generate p (codes "1d")
    ∷ jobs pairs

module _ (num : Float) where
  -- The tables that the service reads and writes. `swaps_after p t` is the answer for the swaps of
  -- the pair later than `t`, and `swaps_since p t` for those at `t` and later.
  pub record Db : Type 0 where
    pub pairs : List Text
    pub swaps_after : Text → ℕ → List SwapRow
    pub swaps_since : Text → ℕ → List SwapRow
    pub candles : Text → Text → Buckets num
    pub stats : Text → Option (num.F × ℕ)

  -- `findUnique` on the pairs
  abbrev pub is_pair : List Text → Text → Bool
  is_pair [] p = false
  is_pair (q ∷ pairs) p = if text_eq q p then true else is_pair pairs p

  -- The timestamp of `findFirst` by descending timestamp.
  unfoldable pub last_candle : Buckets num → Option ℕ
  last_candle [] = none
  last_candle ((t, c) ∷ m) = elim (last_candle m) [ none ↦ some t | some u ↦ some (max t u) ]

  -- `oHLCV.upsert`
  unfoldable pub upsert : ℕ → Candle num → Buckets num → Buckets num
  upsert ts c [] = (ts, c) ∷ []
  upsert ts c ((t, d) ∷ m) = if t == ts then (t, c) ∷ m else (t, d) ∷ upsert ts c m

  unfoldable pub upsert_all : Buckets num → Buckets num → Buckets num
  unfolding upsert
  upsert_all [] m = m
  upsert_all ((t, c) ∷ new) m = upsert_all new (upsert t c m)

  abbrev pub at_key : {A : Type 0} → (Text → Text → A) → Text → Text → A → Text → Text → A
  at_key f p i a q j = if text_eq q p && text_eq j i then a else f q j

  unfoldable pub run_job : ℕ → Job → Db → Db
  run_job now (update_stats p) db =
      let new = update_pair_stats num (is_pair db.pairs p) now (db.swaps_since p) in
      record db {
        stats = λ q.
            if text_eq q p then elim new [ none ↦ db.stats q | some s ↦ some s ] else db.stats q;
      }
  run_job now (generate p interval) db =
      let old = db.candles p interval in
      let new =
        generate_ohlcv num (is_pair db.pairs p) interval (last_candle old) (db.swaps_after p) in
      record db { candles = at_key db.candles p interval (upsert_all new old) }

  unfoldable pub run_jobs : ℕ → List Job → Db → Db
  unfolding run_job
  run_jobs now [] db = db
  run_jobs now (j ∷ js) db = run_jobs now js (run_job now j db)

  -- The callback of `setInterval`: an exception ends it behind the first `n` calls.
  unfoldable pub stats_round : ℕ → ℕ → Db → Db
  stats_round now n db = run_jobs now (take n (jobs db.pairs)) db
