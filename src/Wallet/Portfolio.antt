-- ===== src/Wallet/Portfolio.antt =====
-- `PortfolioPage` of dex-frontend/src/pages/PortfolioPage.tsx without its markup: the balances of the
-- account and its recent swaps.
pub mod Recent
pub mod View
use energy_chain.Shared.{
  ℕ, zero, suc, ◌-◌, Bool, true, false, ◌||◌, List, [], ◌∷◌, ◌++◌, Option, none, some, take, leb,
  ltb, if◌then◌else◌,
}
use energy_chain.Shared.Text.{Text, codes, text_eq, lower}
use energy_chain.Indexer.Pairs.{add}
use energy_chain.Wallet.Display.{Display, slice_last}
use energy_chain.Wallet.Pool.{Chain, ◌>>=◌, symbol_or}
use energy_chain.Wallet.Charts.Trades.{trades_from}

-- A `Swap` log; `none` is undefined or null.
pub record SwapLog : Type 0 where
  pub sender : Option Text
  pub to : Option Text
  pub transaction_hash : Option Text
  pub block_number : Option ℕ

-- What the chain answers besides; `none` is an exception.
pub record PortfolioChain : Type 0 where
  pub chain : Chain
  pub open chain use *
  pub decimals : Text → Option ℕ
  pub block_number : Option ℕ
  pub logs : Text → ℕ → ℕ → Option (List SwapLog)
  -- the timestamp of a block
  pub block_time : Option ℕ → Option ℕ

-- `TxRecord`
pub record TxRecord : Type 0 where
  pub hash : Text
  pub kind : Text
  pub time : Text
  pub block_number : ℕ

-- The loop over the pairs, from the pair `i` on, for `n` pairs: `tokenAddrs` and `pairAddrs`.
unfoldable pub read_addresses :
    PortfolioChain → ℕ → ℕ → List Text → List Text → Option (List Text × List Text)
read_addresses c i zero tokens pairs = some (tokens, pairs)
read_addresses c i (suc n) tokens pairs = do
  pair ← c.all_pairs i
  t0 ← c.token0 pair
  t1 ← c.token1 pair
  read_addresses c (suc i) n (add (add tokens (lower t0)) (lower t1)) (pairs ++ pair ∷ [])

module _ (d : Display) where
  -- `TokenBal`
  pub record TokenBal : Type 0 where
    pub symbol : Text
    pub name : Text
    pub balance : Text
    pub raw : d.F

  -- The balance of a token; `none` is an exception, which is ignored.
  unfoldable pub token_bal : PortfolioChain → Text → Text → Option TokenBal
  token_bal c account token = do
    symbol ← c.symbol token
    dec ← c.decimals token
    balance ← c.balance_of token account
    some (record {
      symbol = symbol;
      name = symbol;
      balance = d.to_locale 6 (d.units balance dec);
      raw = d.units balance dec;
    })

  -- The entry of a pair that the account has liquidity in.
  unfoldable pub lp_entry : PortfolioChain → Text → d.F → Option TokenBal
  lp_entry c pair num = do
    t0 ← c.token0 pair
    t1 ← c.token1 pair
    some (record {
      symbol = symbol_or (c.symbol t0) ++ codes "/" ++ symbol_or (c.symbol t1) ++ codes " LP";
      name = codes "LP Token";
      balance = d.to_locale 6 num;
      raw = num;
    })

  unfoldable pub lp_bal : PortfolioChain → Text → Text → Option TokenBal
  lp_bal c account pair = do
    balance ← c.balance_of pair account
    let num = d.units balance 18
    if d.less d.zero_f num then lp_entry c pair num else none

  -- A loop that pushes what a round gives.
  abbrev pub pushes : {A : Type 0} → (A → Option TokenBal) → List A → List TokenBal
  pushes f [] = []
  pushes f (a ∷ xs) = let rest = pushes f xs in elim (f a) [ none ↦ rest | some b ↦ b ∷ rest ]

  -- `bals.filter(b => b.raw > 0)`
  abbrev pub positive : List TokenBal → List TokenBal
  positive [] = []
  positive (b ∷ bs) = if d.less d.zero_f b.raw then b ∷ positive bs else positive bs

-- `x?.toLowerCase() ?? ""`
abbrev pub lower_or : Option Text → Text
lower_or none = []
lower_or (some t) = lower t

-- `hash.slice(0, 8)`, an ellipsis and `hash.slice(-4)`
abbrev pub short_hash : Option Text → Text
short_hash none = codes "—"
short_hash (some h) = take 8 h ++ codes "…" ++ slice_last 4 h

-- `Number(log.blockNumber ?? 0)`
abbrev pub number_of : Option ℕ → ℕ
number_of none = 0
number_of (some n) = n

-- `timeStr`; `show_time` prints a timestamp.
abbrev pub time_of : (ℕ → Text) → Option ℕ → Text
time_of show_time none = codes "—"
time_of show_time (some t) = show_time t

unfoldable pub involves : Text → SwapLog → Bool
involves account log =
    text_eq (lower_or log.sender) (lower account) || text_eq (lower_or log.to) (lower account)

unfoldable pub tx_record : PortfolioChain → (ℕ → Text) → SwapLog → TxRecord
tx_record c show_time log = record {
  hash = short_hash log.transaction_hash;
  kind = codes "Swap";
  time = time_of show_time (c.block_time log.block_number);
  block_number = number_of log.block_number;
}

-- The loop over the logs of a pair.
unfoldable pub log_txs : PortfolioChain → (ℕ → Text) → Text → List SwapLog → List TxRecord
log_txs c show_time account [] = []
log_txs c show_time account (log ∷ logs) =
    let rest = log_txs c show_time account logs in
    if involves account log then tx_record c show_time log ∷ rest else rest

-- The loop over the pairs: the logs of a pair that cannot be read are left out.
unfoldable pub all_txs : PortfolioChain → (ℕ → Text) → Text → ℕ → ℕ → List Text → List TxRecord
all_txs c show_time account from to [] = []
all_txs c show_time account from to (pair ∷ pairs) =
    let rest = all_txs c show_time account from to pairs in
    elim (c.logs pair from to) [
      | none ↦ rest
      | some logs ↦ log_txs c show_time account logs ++ rest
    ]

-- `allTxs.sort((a, b) => b.blockNumber - a.blockNumber)`, which is stable.
unfoldable pub insert_latest : TxRecord → List TxRecord → List TxRecord
insert_latest t [] = t ∷ []
insert_latest t (u ∷ us) =
    if leb u.block_number t.block_number then t ∷ (u ∷ us) else u ∷ insert_latest t us

unfoldable pub latest_first : List TxRecord → List TxRecord
unfolding insert_latest
latest_first [] = []
latest_first (t ∷ ts) = insert_latest t (latest_first ts)

-- `fetchAll`: the balances and the transactions that are shown afterwards. An exception leaves those
-- from before, of the transactions alone if it comes behind `setTokenBals`.
pub record Shown (d : Display) : Type 0 where
  pub token_bals : List (TokenBal d)
  pub txs : List TxRecord

module _ (d : Display) (show_time : ℕ → Text) (wecy usdt : Text) where
  unfoldable pub balances : PortfolioChain → Text → List Text → List Text → List (TokenBal d)
  balances c account tokens pairs =
      positive d (pushes d (token_bal d c account) tokens ++ pushes d (lp_bal d c account) pairs)

  unfoldable pub recent_txs : PortfolioChain → Text → List Text → ℕ → List TxRecord
  recent_txs c account pairs latest =
      take 20 (latest_first (all_txs c show_time account (trades_from latest) latest pairs))

  unfoldable pub fetch_all : PortfolioChain → Text → Shown d → Shown d
  fetch_all c account shown =
      let found = c.all_pairs_length >>= λ len.
      read_addresses c 0 len (add (add [] (lower wecy)) (lower usdt)) [] in
      elim found [
        | none ↦ shown
        | some (tokens, pairs) ↦ record {
          token_bals = balances c account tokens pairs;
          txs = elim c.block_number [
            | none ↦ shown.txs
            | some latest ↦ recent_txs c account pairs latest
          ];
        }
      ]
