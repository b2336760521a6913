-- ===== src/Wallet/Charts/Trades.antt =====
-- The trades of the pair in `fetchTrades` of dex-frontend/src/pages/ChartsPage.tsx, with the cache of
-- the times of their blocks.
use energy_chain.Shared.{
  ℕ, zero, suc, ◌-◌, Bool, true, false, ◌&&◌, List, [], ◌∷◌, ◌++◌, Option, none, some, map, reverse,
  take, drop, ltb, leb, ◌==◌, if◌then◌else◌, length,
}
use energy_chain.Shared.Text.{Text}
use energy_chain.Price.Float.{Float}

-- A `Swap` log with its decoded arguments; `none` is undefined.
pub record TradeLog : Type 0 where
  pub amount0_in : Option ℕ
  pub amount1_in : Option ℕ
  pub amount0_out : Option ℕ
  pub amount1_out : Option ℕ
  pub block_number : ℕ
  pub transaction_hash : Option Text

-- `latestBlock > 10000n ? latestBlock - 10000n : 0n`
unfoldable pub trades_from : ℕ → ℕ
trades_from latest = if ltb 10000 latest then latest - 10000 else 0

abbrev pub contains : List ℕ → ℕ → Bool
contains [] b = false
contains (c ∷ s) b = if c == b then true else contains s b

-- `[...new Set(blocks)]`, behind the blocks that are there already.
unfoldable pub unique_blocks : List ℕ → List ℕ → List ℕ
unique_blocks seen [] = seen
unique_blocks seen (b ∷ bs) = unique_blocks (if contains seen b then seen else seen ++ b ∷ []) bs

-- The cache of the timestamps: the entry that was set last is found first.
abbrev pub Cache : Type 0
Cache = List (ℕ × ℕ)

unfoldable pub cached : Cache → ℕ → Option ℕ
cached [] b = none
cached ((c, t) ∷ cache) b = if c == b then some t else cached cache b

-- `results.forEach`: a block that could not be read is skipped.
unfoldable pub cache_batch : (ℕ → Option ℕ) → List ℕ → Cache → Cache
cache_batch get_block [] cache = cache
cache_batch get_block (b ∷ bs) cache = elim (get_block b) [
  | none ↦ cache_batch get_block bs cache
  | some t ↦ cache_batch get_block bs ((b, t) ∷ cache)
]

-- The loop over batches of 20. The fuel bounds the rounds; one for each block is enough.
unfoldable pub cache_blocks : (ℕ → Option ℕ) → ℕ → List ℕ → Cache → Cache
cache_blocks get_block zero blocks cache = cache
cache_blocks get_block (suc fuel) blocks cache =
    let rest =
      cache_blocks get_block fuel (drop 20 blocks) (cache_batch get_block (take 20 blocks) cache) in
    if length blocks == 0 then cache else rest

pub data Side : Type 0 where
  buy sell : Side

-- `arr.sort((a, b) => key(a) - key(b))`, which is stable.
unfoldable pub insert_by : {A : Type 0} → (A → ℕ) → A → List A → List A
insert_by key x [] = x ∷ []
insert_by key x (y ∷ ys) = if leb (key x) (key y) then x ∷ (y ∷ ys) else y ∷ insert_by key x ys

unfoldable pub sort_by : {A : Type 0} → (A → ℕ) → List A → List A
unfolding insert_by
sort_by key [] = []
sort_by key (x ∷ xs) = insert_by key x (sort_by key xs)

-- `units` is `parseFloat(formatUnits(a, 18))`.
module _ (num : Float) (units : ℕ → num.F) where
  open num use {F, zero_f, plus, over, max_f, min_f, less}

  -- `TradeRecord`
  pub record Trade : Type 0 where
    pub timestamp : ℕ
    pub side : Side
    pub price : F
    pub amount_ecy : F
    pub amount_usdt : F
    pub tx_hash : Text

  abbrev pub units_of : Option ℕ → F
  units_of none = units 0
  units_of (some a) = units a

  abbrev pub or_empty : Option Text → Text
  or_empty none = []
  or_empty (some t) = t

  -- The trade of one direction: `usdt_in` and `ecy_out` for buying, the others for selling.
  unfoldable pub trade_of : F → F → F → F → ℕ → Text → Trade
  trade_of usdt_in ecy_in usdt_out ecy_out time hash =
      if less zero_f usdt_in && less zero_f ecy_out
      then record {
        timestamp = time;
        side = buy;
        price = over usdt_in ecy_out;
        amount_ecy = ecy_out;
        amount_usdt = usdt_in;
        tx_hash = hash;
      }
      else record {
        timestamp = time;
        side = sell;
        price = if less zero_f ecy_in then over usdt_out ecy_in else zero_f;
        amount_ecy = ecy_in;
        amount_usdt = usdt_out;
        tx_hash = hash;
      }

  -- `blockTimestampCache.get(block) ?? now`, with the clock at the turn of the log
  unfoldable pub log_time : Cache → (TradeLog → ℕ) → TradeLog → ℕ
  log_time cache now log = elim (cached cache log.block_number) [ none ↦ now log | some t ↦ t ]

  unfoldable pub trade_record : Bool → Cache → (TradeLog → ℕ) → TradeLog → Trade
  unfolding trade_of log_time
  trade_record usdt_is_token0 cache now log =
      let a0_in = units_of log.amount0_in in
      let a1_in = units_of log.amount1_in in
      let a0_out = units_of log.amount0_out in
      let a1_out = units_of log.amount1_out in
      let time = log_time cache now log in
      let hash = or_empty log.transaction_hash in
      if usdt_is_token0
      then trade_of a0_in a1_in a0_out a1_out time hash
      else trade_of a1_in a0_in a1_out a0_out time hash

  -- `fetchTrades` behind the query of the logs.
  unfoldable pub fetch_trades : (ℕ → Option ℕ) → (TradeLog → ℕ) → Bool → List TradeLog → List Trade
  fetch_trades get_block now usdt_is_token0 logs =
      let blocks = unique_blocks [] (map (λ log. log.block_number) logs) in
      let cache = cache_blocks get_block (length blocks) blocks [] in
      sort_by (λ t. t.timestamp) (map (trade_record usdt_is_token0 cache now) logs)

  -- `recentTrades`
  unfoldable pub recent_trades : List Trade → List Trade
  recent_trades trades = take 20 (reverse trades)
