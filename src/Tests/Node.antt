-- ===== src/Tests/Node.antt =====
-- A small node and database: one pair, with a swap in block 3, and a head that grows with each call.
use energy_chain.Shared.{
  ℕ, ◌+◌, ◌*◌, refl, true, false, List, [], ◌∷◌, none, some, length, if◌then◌else◌, leb, ◌&&◌,
}
use energy_chain.Shared.Text.{Text, codes}
use energy_chain.Indexer.Data.{Log, CreatedArgs, SwapArgs, SyncArgs, Env, World}
use energy_chain.Indexer.Events.Rows.{Ledger, IsSteady}

abbrev pub pair : Text
pair = codes "0xab"

abbrev pub swap_args : SwapArgs
swap_args = record {
  sender = codes "0xS";
  amount0_in = 7;
  amount1_in = 0;
  amount0_out = 0;
  amount1_out = 5;
  to = codes "0xT";
}

abbrev pub swap_log : Log SwapArgs
swap_log = record { parsed = some swap_args; block_number = 3; transaction_hash = codes "0x1" }

abbrev pub sync_log : Log SyncArgs
sync_log = record {
  parsed = some (record { reserve0 = 107; reserve1 = 95 });
  block_number = 3;
  transaction_hash = codes "0x1";
}

abbrev pub created_log : Log CreatedArgs
created_log = record {
  parsed = some (record { token0 = codes "0xA0"; token1 = codes "0xB0"; pair = codes "0xAB" });
  block_number = 2;
  transaction_hash = codes "0x0";
}

abbrev in_range : {A : Type 0} → ℕ → A → ℕ → ℕ → List A
in_range block log from to = if leb from block && leb block to then log ∷ [] else []

abbrev pub ledger : Ledger
ledger = record {
  clock = λ n. some (1000 + 2 * n);
  swaps = λ a from to. in_range 3 swap_log from to;
  mints = λ a from to. [];
  burns = λ a from to. [];
  syncs = λ a from to. in_range 3 sync_log from to;
}

abbrev pub node : Env
node = record {
  pairs_reply = λ h. some [];
  state_reply = λ h k. some none;
  token_reply = λ h a. some false;
  block_number_reply = λ h. some (3 + length h);
  created_reply = λ h f from to. some (in_range 2 created_log from to);
  swaps_reply = λ h a from to. some (ledger.swaps a from to);
  mints_reply = λ h a from to. some (ledger.mints a from to);
  burns_reply = λ h a from to. some (ledger.burns a from to);
  syncs_reply = λ h a from to. some (ledger.syncs a from to);
  block_reply = λ h n. some (ledger.clock n);
  name_reply = λ h a. some (codes "Token");
  symbol_reply = λ h a. none;
  decimals_reply = λ h a. some 18;
  write_reply = λ h c. true;
}

pub node-IsSteady : IsSteady node ledger
node-IsSteady = record {
  blocks = λ h n. refl;
  swap_logs = λ h a from to. refl;
  mint_logs = λ h a from to. refl;
  burn_logs = λ h a from to. refl;
  sync_logs = λ h a from to. refl;
  writes = λ h c. refl;
}

abbrev pub fresh : World
fresh = record { history = []; tracked_pairs = []; last_processed = 0 }

abbrev pub polled : World
polled = record { history = []; tracked_pairs = pair ∷ []; last_processed = 1 }
