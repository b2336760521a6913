-- ===== src/Api.antt =====
-- The HTTP routes of dex-indexer/src/api/routes.ts. A handler is the query that it makes of the
-- database and what it answers; running a query is the database's part.
pub mod Paging
pub mod Users
pub mod Search
use energy_chain.Shared.{
  ℕ, ◌+◌, Bool, true, false, ◌||◌, List, [], ◌∷◌, Option, none, some, if◌then◌else◌, reverse,
  length, foldl, ◌==◌,
}
use energy_chain.Shared.Int.{ℤ, pos, negsuc, min_ℤ, ◌-ℤ◌, ◌*ℤ◌}
use energy_chain.Shared.Text.{Text, codes, text_eq, lower}
use energy_chain.Shared.Number.{parse_int}
use energy_chain.Indexer.Data.{SwapRow}
use energy_chain.Price.Float.{Float}

-- `parseInt(text) || other`: NaN and 0 are falsy. A parameter that is missing reads as NaN.
unfoldable pub parse_or : Option Text → ℤ → ℤ
parse_or none other = other
parse_or (some text) other = elim (parse_int text) [
  | none ↦ other
  | some (pos n) ↦ if n == 0 then other else pos n
  | some (negsuc n) ↦ negsuc n
]

-- `Math.min(parseInt(text) || other, most)`
unfoldable pub limit_of : Option Text → ℤ → ℤ → ℤ
unfolding parse_or
limit_of text other most = min_ℤ (parse_or text other) most

-- The columns by which a route selects and sorts.
pub data Column : Type 0 where
  timestamp tvl_usd volume24h : Column

-- `findMany({ where, orderBy: desc, skip, take })`: what is left out is `none`.
pub record Query (Row : Type 0) : Type 0 where
  pub keep : Row → Bool
  pub latest_by : Option Column
  pub skip : Option ℤ
  pub take : Option ℤ

-- `swaps` of GET /pairs/:address/swaps, with the `page` and the `limit` of the answer.
pub record SwapPage : Type 0 where
  pub query : Query SwapRow
  pub page : ℤ
  pub limit : ℤ

unfoldable pub pair_swaps : Text → Option Text → Option Text → SwapPage
unfolding limit_of
pair_swaps address page_text limit_text =
    let page = parse_or page_text (pos 1) in
    let limit = limit_of limit_text (pos 50) (pos 200) in
    record {
      query = record {
        keep = λ s. text_eq s.pair_addr (lower address);
        latest_by = some timestamp;
        skip = some ((page -ℤ pos 1) *ℤ limit);
        take = some limit;
      };
      page = page;
      limit = limit;
    }

-- A stored candle, as far as GET /pairs/:address/ohlcv selects it.
pub record CandleKey : Type 0 where
  pub pair_addr : Text
  pub interval : Text

-- `(req.query.interval as string) || "1h"`
unfoldable pub interval_of : Option Text → Text
interval_of none = codes "1h"
interval_of (some []) = codes "1h"
interval_of (some (c ∷ s)) = c ∷ s

unfoldable pub pair_candles : Text → Option Text → Option Text → Query CandleKey
unfolding limit_of interval_of
pair_candles address interval_text limit_text = record {
  keep = λ c.
      if text_eq c.pair_addr (lower address)
      then text_eq c.interval (interval_of interval_text)
      else false;
  latest_by = some timestamp;
  skip = none;
  take = some (limit_of limit_text (pos 500) (pos 2000));
}

-- `res.json(candles.reverse())`
unfoldable pub candles_reply {ℓ} : {A : Type ℓ} → List A → List A
candles_reply candles = reverse candles

-- GET /user/:address/txs
unfoldable pub user_txs : Text → Option Text → Query SwapRow
unfolding limit_of
user_txs address limit_text = record {
  keep = λ s. text_eq s.sender (lower address) || text_eq s.to (lower address);
  latest_by = some timestamp;
  skip = none;
  take = some (limit_of limit_text (pos 50) (pos 200));
}

-- The answer of a route for one record: 404, or the record.
pub data Reply (A : Type 0) : Type 0 where
  not_found : Text → Reply A
  json : A → Reply A

-- GET /tokens/:address, from `findUnique` by address.
unfoldable pub get_token : {A : Type 0} → (Text → Option A) → Text → Reply A
get_token find_unique address = elim (find_unique (lower address)) [
  | none ↦ not_found (codes "Token not found")
  | some token ↦ json token
]

-- GET /pairs/:address, from `findUnique` by address.
unfoldable pub get_pair : {A : Type 0} → (Text → Option A) → Text → Reply A
get_pair find_unique address = elim (find_unique (lower address)) [
  | none ↦ not_found (codes "Pair not found")
  | some pair ↦ json pair
]

-- GET /search: an empty text is answered by no tokens and no pairs, and nothing is asked. The two
-- queries are in Search.
unfoldable pub search_for :
    {T P : Type 0} → (Text → List T) → (Text → List P) → Option Text → List T × List P
search_for tokens pairs none = ([], [])
search_for tokens pairs (some []) = ([], [])
search_for tokens pairs (some (c ∷ q)) = (tokens (lower (c ∷ q)), pairs (lower (c ∷ q)))

-- GET /tokens
unfoldable pub list_tokens : {T : Type 0} → Query T
list_tokens = record { keep = λ t. true; latest_by = some volume24h; skip = none; take = none }

-- GET /pairs
unfoldable pub list_pairs : {P : Type 0} → Query P
list_pairs = record { keep = λ p. true; latest_by = some tvl_usd; skip = none; take = none }

module _ (num : Float) where
  -- The figures of a pair that GET /stats adds up.
  pub record PairFigures : Type 0 where
    pub tvl : num.F
    pub volume : num.F

  pub record Stats : Type 0 where
    pub pair_count : ℕ
    pub total_swaps : ℕ
    pub total_tvl : num.F
    pub total_volume24h : num.F
    pub token_count : ℕ

  -- GET /stats, from the counts and the pairs of the database.
  unfoldable pub stats : ℕ → ℕ → List PairFigures → ℕ → Stats
  stats pairs_count swaps_count pairs tokens_count = record {
    pair_count = pairs_count;
    total_swaps = swaps_count;
    total_tvl = foldl (λ sum p. num.plus sum p.tvl) num.zero_f pairs;
    total_volume24h = foldl (λ sum p. num.plus sum p.volume) num.zero_f pairs;
    token_count = tokens_count;
  }
