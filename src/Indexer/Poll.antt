-- ===== src/Indexer/Poll.antt =====
-- `pollNewBlocks` and `start`. A tick of the timer is one call of `poll_tick`; here the ticks
-- follow one another, and Overlap has the timer whose ticks overlap.
pub mod Advance
pub mod Progress
pub mod Overlap
pub mod Refine
pub mod Start
use energy_chain.Shared.{ℕ, suc, zero, ◌+◌, leb, ◌==◌, if◌then◌else◌}
use energy_chain.Shared.Text.{Text}
use energy_chain.Indexer.Data.{Env, World, get_block_number}
use energy_chain.Indexer.Action.{Action, pure, gets, modify, catch, ◌>>=◌, ◌>>◌, call}
use energy_chain.Indexer.Pairs.{load_existing_pairs}
use energy_chain.Indexer.Events.{process_block_range}
use energy_chain.Indexer.Sync.{save_block, sync_historical}

-- `lastProcessed === 0 ? currentBlock : lastProcessed + 1`
unfoldable pub poll_from : ℕ → ℕ → ℕ
poll_from last current = if last == 0 then current else last + 1

module _ (env : Env) (factory : Text) where
  -- The `try` block of the timer's callback.
  unfoldable pub poll : Action (Unit {0})
  poll = do
    current ← call get_block_number env.block_number_reply
    last ← gets (λ w. w.last_processed)
    if leb current last then pure tt else do
      process_block_range env factory (poll_from last current) current
      modify (λ w. record w { last_processed = current })
      save_block env current

  -- An exception is logged, and the next tick starts from what is left.
  unfoldable pub poll_tick : Action (Unit {0})
  poll_tick = catch poll (pure tt)

  unfoldable pub poll_ticks : ℕ → Action (Unit {0})
  poll_ticks zero = pure tt
  poll_ticks (suc n) = poll_tick >> poll_ticks n

  -- `start`, followed by the first `n` ticks of the timer.
  unfoldable pub start : ℕ → ℕ → Action (Unit {0})
  start start_block n = do
    load_existing_pairs env
    sync_historical env factory start_block
    poll_ticks n
