-- ===== src/Indexer/Events.antt =====
-- `indexPairEvents` and `processBlockRange`.
pub mod Tracked
pub mod Rows
use energy_chain.Shared.{ℕ, ◌*◌, List, [], ◌∷◌, Option, none, some, last?}
use energy_chain.Shared.Text.{Text}
use energy_chain.Shared.Number.{to_string}
use energy_chain.Indexer.Data.{
  Env, World, Log, CreatedArgs, SwapArgs, LiquidityArgs, SyncArgs, SwapRow, LiquidityRow,
  query_created, query_swaps, query_mints, query_burns, query_syncs, get_block, create_swap,
  create_mint, create_burn, update_pair, Write,
}
use energy_chain.Indexer.Action.{Action, pure, gets, ◌>>=◌, ◌>>◌, call, send, for_each}
use energy_chain.Indexer.Pairs.{handle_pair_created}

-- `new Date((block?.timestamp || 0) * 1000)`, in milliseconds
abbrev pub block_time : Option ℕ → ℕ
block_time none = 0
block_time (some seconds) = seconds * 1000

unfoldable pub swap_row : Text → Log SwapArgs → SwapArgs → ℕ → SwapRow
swap_row pair_addr log args time = record {
  pair_addr = pair_addr;
  tx_hash = log.transaction_hash;
  sender = args.sender;
  amount0_in = to_string args.amount0_in;
  amount1_in = to_string args.amount1_in;
  amount0_out = to_string args.amount0_out;
  amount1_out = to_string args.amount1_out;
  to = args.to;
  timestamp = time;
  block_number = log.block_number;
}

unfoldable pub liquidity_row : Text → Log LiquidityArgs → LiquidityArgs → ℕ → LiquidityRow
liquidity_row pair_addr log args time = record {
  pair_addr = pair_addr;
  tx_hash = log.transaction_hash;
  sender = args.sender;
  amount0 = to_string args.amount0;
  amount1 = to_string args.amount1;
  timestamp = time;
  block_number = log.block_number;
}

module _ (env : Env) where
  -- The body shared by the three loops of `indexPairEvents`: skip a log that does not parse, ask
  -- for its block, and write the row made of both.
  unfoldable pub index_log : {A : Type 0} → (Log A → A → ℕ → Write) → Log A → Action (Unit {0})
  index_log make log = elim log.parsed [
    | none ↦ pure tt
    | some args ↦ do
      block ← call (get_block log.block_number) (λ h. env.block_reply h log.block_number)
      send env (make log args (block_time block))
  ]

  -- The last `Sync` of the range, if it parses, gives the reserves.
  unfoldable pub update_reserves : Text → List (Log SyncArgs) → Action (Unit {0})
  update_reserves pair_addr logs = elim (last? logs) [
    | none ↦ pure tt
    | some last ↦ elim last.parsed [
      | none ↦ pure tt
      | some args ↦
          send env (update_pair pair_addr (to_string args.reserve0) (to_string args.reserve1))
    ]
  ]

  unfoldable pub index_swaps : Text → List (Log SwapArgs) → Action (Unit {0})
  index_swaps pair_addr =
      for_each (index_log (λ log args time. create_swap (swap_row pair_addr log args time)))

  unfoldable pub index_mints : Text → List (Log LiquidityArgs) → Action (Unit {0})
  index_mints pair_addr =
      for_each (index_log (λ log args time. create_mint (liquidity_row pair_addr log args time)))

  unfoldable pub index_burns : Text → List (Log LiquidityArgs) → Action (Unit {0})
  index_burns pair_addr =
      for_each (index_log (λ log args time. create_burn (liquidity_row pair_addr log args time)))

  -- The four queries of `Promise.all` are made in their order here.
  unfoldable pub index_pair_events : Text → ℕ → ℕ → Action (Unit {0})
  index_pair_events pair_addr from to = do
    swap_logs ← call (query_swaps pair_addr from to) (λ h. env.swaps_reply h pair_addr from to)
    mint_logs ← call (query_mints pair_addr from to) (λ h. env.mints_reply h pair_addr from to)
    burn_logs ← call (query_burns pair_addr from to) (λ h. env.burns_reply h pair_addr from to)
    sync_logs ← call (query_syncs pair_addr from to) (λ h. env.syncs_reply h pair_addr from to)
    index_swaps pair_addr swap_logs
    index_mints pair_addr mint_logs
    index_burns pair_addr burn_logs
    update_reserves pair_addr sync_logs

  unfoldable pub handle_created_log : Log CreatedArgs → Action (Unit {0})
  handle_created_log log = elim log.parsed [
    | none ↦ pure tt
    | some args ↦ handle_pair_created env args.token0 args.token1 args.pair log.block_number
  ]

  unfoldable pub process_block_range : Text → ℕ → ℕ → Action (Unit {0})
  process_block_range factory from to = do
    logs ← call (query_created factory from to) (λ h. env.created_reply h factory from to)
    for_each handle_created_log logs
    pairs ← gets (λ w. w.tracked_pairs)
    for_each (λ pair. index_pair_events pair from to) pairs
