-- ===== src/Indexer/Sync.antt =====
-- `syncHistorical`: the blocks that the node has already, in batches.
pub mod Batches
pub mod Resume
use energy_chain.Shared.{
  ℕ, zero, suc, ◌+◌, ◌-◌, min, List, [], ◌∷◌, Option, none, some, if◌then◌else◌, leb,
}
use energy_chain.Shared.Int.{ℤ, pos, negsuc}
use energy_chain.Shared.Text.{Text, codes}
use energy_chain.Shared.Number.{to_string, parse_int}
use energy_chain.Indexer.Data.{Env, World, find_state, get_block_number, upsert_state}
use energy_chain.Indexer.Action.{Action, pure, throw, ◌>>=◌, ◌>>◌, call, send}
use energy_chain.Indexer.Events.{process_block_range}

-- `batchSize`
abbrev pub batch_size : ℕ
batch_size = 500

unfoldable pub save_block : Env → ℕ → Action (Unit {0})
save_block env block = send env (upsert_state (codes "lastBlock") (to_string block))

-- `state ? parseInt(state.value) + 1 : config.startBlock`; `none` is NaN.
unfoldable pub from_block : ℕ → Option Text → Option ℤ
unfolding parse_int
from_block start_block none = some (pos start_block)
from_block start_block (some value) = elim (parse_int value) [
  | none ↦ none
  | some (pos n) ↦ some (pos (n + 1))
  | some (negsuc zero) ↦ some (pos 0)
  | some (negsuc (suc n)) ↦ some (negsuc n)
]

module _ (env : Env) (factory : Text) where
  -- The loop over `start`. The fuel bounds the rounds; `current + 2` is enough, the
  -- last round being the test that ends the loop.
  unfoldable pub sync_batches : ℕ → ℕ → ℕ → Action (Unit {0})
  sync_batches zero start current = throw
  sync_batches (suc fuel) start current =
      let batch = process_block_range env factory start (min (start + batch_size - 1) current) in
      let rest = sync_batches fuel (start + batch_size) current in
      if leb start current then batch >> rest else pure tt

  -- With NaN neither the test nor the loop's condition holds, and only the block is saved. A negative
  -- first block, which only a number below -1 in the database gives, is outside the model, in which a
  -- block is a natural number: the run stops there.
  unfoldable pub sync_from : Option ℤ → ℕ → Action (Unit {0})
  sync_from none current = save_block env current
  sync_from (some (negsuc n)) current = throw
  sync_from (some (pos from)) current =
      if leb current from
      then pure tt
      else (sync_batches (suc (suc current)) from current >> save_block env current)

  unfoldable pub sync_historical : ℕ → Action (Unit {0})
  sync_historical start_block = do
    state ← call (find_state (codes "lastBlock")) (λ h. env.state_reply h (codes "lastBlock"))
    current ← call get_block_number env.block_number_reply
    sync_from (from_block start_block state) current
