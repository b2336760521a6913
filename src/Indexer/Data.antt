-- ===== src/Indexer/Data.antt =====
-- The rows that the indexer writes, the logs that it reads, and what it asks of the node and of the
-- database. The rows follow dex-indexer/prisma/schema.prisma, without the columns that the indexer
-- leaves at their defaults.
use energy_chain.Shared.{ℕ, Bool, List, Option}
use energy_chain.Shared.Text.{Text}

-- The arguments of a parsed `PairCreated` event.
pub record CreatedArgs : Type 0 where
  pub token0 : Text
  pub token1 : Text
  pub pair : Text

-- The arguments of a parsed `Swap` event.
pub record SwapArgs : Type 0 where
  pub sender : Text
  pub amount0_in : ℕ
  pub amount1_in : ℕ
  pub amount0_out : ℕ
  pub amount1_out : ℕ
  pub to : Text

-- The arguments of a parsed `Mint` or `Burn` event that the indexer uses.
pub record LiquidityArgs : Type 0 where
  pub sender : Text
  pub amount0 : ℕ
  pub amount1 : ℕ

-- The arguments of a parsed `Sync` event.
pub record SyncArgs : Type 0 where
  pub reserve0 : ℕ
  pub reserve1 : ℕ

-- A log, with what `parseLog` makes of it: `none` is null.
pub record Log (A : Type 0) : Type 0 where
  pub parsed : Option A
  pub block_number : ℕ
  pub transaction_hash : Text

-- `data` of `prisma.swap.create`; the amounts are decimal texts, the time is in milliseconds.
pub record SwapRow : Type 0 where
  pub pair_addr : Text
  pub tx_hash : Text
  pub sender : Text
  pub amount0_in : Text
  pub amount1_in : Text
  pub amount0_out : Text
  pub amount1_out : Text
  pub to : Text
  pub timestamp : ℕ
  pub block_number : ℕ

-- `data` of `prisma.mint.create` and of `prisma.burn.create`.
pub record LiquidityRow : Type 0 where
  pub pair_addr : Text
  pub tx_hash : Text
  pub sender : Text
  pub amount0 : Text
  pub amount1 : Text
  pub timestamp : ℕ
  pub block_number : ℕ

-- The calls that write to the database.
pub data Write : Type 0 where
  create_token : (address name symbol : Text) (decimals : ℕ) → Write
  upsert_pair : (address token0_addr token1_addr : Text) (block_number : ℕ) → Write
  create_swap : SwapRow → Write
  create_mint : LiquidityRow → Write
  create_burn : LiquidityRow → Write
  update_pair : (address reserve0 reserve1 : Text) → Write
  upsert_state : (key value : Text) → Write

-- A call that leaves the program. A write carries whether the database took it.
pub data Request : Type 0 where
  find_pairs : Request
  find_state : (key : Text) → Request
  find_token : (address : Text) → Request
  get_block_number : Request
  query_created : (factory : Text) (from to : ℕ) → Request
  query_swaps query_mints query_burns query_syncs : (pair : Text) (from to : ℕ) → Request
  get_block : ℕ → Request
  read_name read_symbol read_decimals : (token : Text) → Request
  write : Write → Bool → Request

-- The calls so far, the newest first.
abbrev pub History : Type 0
History = List Request

-- What the node (ethers) and the database (prisma) answer. An answer may depend on every call that
-- was made before, so the same call can fail once and succeed later. `none` is a rejected promise.
pub record Env : Type 0 where
  pub pairs_reply : History → Option (List Text)
  pub state_reply : History → Text → Option (Option Text)
  pub token_reply : History → Text → Option Bool
  pub block_number_reply : History → Option ℕ
  pub created_reply : History → Text → ℕ → ℕ → Option (List (Log CreatedArgs))
  pub swaps_reply : History → Text → ℕ → ℕ → Option (List (Log SwapArgs))
  pub mints_reply : History → Text → ℕ → ℕ → Option (List (Log LiquidityArgs))
  pub burns_reply : History → Text → ℕ → ℕ → Option (List (Log LiquidityArgs))
  pub syncs_reply : History → Text → ℕ → ℕ → Option (List (Log SyncArgs))
  -- `null`, or a block's timestamp in seconds
  pub block_reply : History → ℕ → Option (Option ℕ)
  pub name_reply : History → Text → Option Text
  pub symbol_reply : History → Text → Option Text
  pub decimals_reply : History → Text → Option ℕ
  pub write_reply : History → Write → Bool

-- The private fields of `EventIndexer`, the variable of `pollNewBlocks`, and the calls so far.
pub record World : Type 0 where
  pub history : History
  pub tracked_pairs : List Text
  pub last_processed : ℕ
