-- ===== src/Tests/Indexing.antt =====
-- The indexer on the small node.
use energy_chain.Shared.{false, ℕ, ◌≤◌, ◌≡◌, refl, true, List, [], ◌∷◌, some, All, arith}
use energy_chain.Shared.Text.{Text, codes, lower}
use energy_chain.Shared.Number.{to_string}
use energy_chain.Indexer.Data.{History, write, upsert_state}
use energy_chain.Indexer.Action.{
  ok, for_each, ◌>>=◌, pure, gets, modify, catch, call, call_or, send,
}
use energy_chain.Indexer.Moves.{Moves}
use energy_chain.Indexer.Ranges.{Range, holds, hits, width}
use energy_chain.Indexer.Pairs.{has, handle_pair_created, ensure_token, register_token, track, add}
use energy_chain.Indexer.Pairs.Tracked.{Tracks}
use energy_chain.Indexer.Pairs.Created.{handle_pair_created-idempotent}
use energy_chain.Indexer.Events.{
  process_block_range, index_pair_events, handle_created_log, index_swaps, index_mints, index_burns,
  update_reserves, index_log, swap_row, liquidity_row,
}
use energy_chain.Indexer.Events.Tracked.{process_block_range-Tracks}
use energy_chain.Indexer.Events.Rows.{Writes, pair_rows, index_pair_events-Writes}
use energy_chain.Indexer.Sync.{batch_size, sync_batches, save_block}
use energy_chain.Indexer.Sync.Batches.{process, sync_batches-partition}
use energy_chain.Indexer.Poll.{poll_from, poll, poll_tick, poll_ticks}
use energy_chain.Indexer.Poll.Advance.{WasProcessed, poll_ticks-covers}
use energy_chain.Indexer.Returns.{Answers}
use energy_chain.Indexer.Poll.Progress.{IsLive, poll_tick-reaches}
use energy_chain.Tests.Node.{pair, ledger, node, node-IsSteady, fresh, polled}

abbrev factory : Text
factory = codes "0xF"

-- Everything that a run of the indexer computes with.
indexer : Unit {0}
unfolding ◌>>=◌ pure gets modify catch call call_or send for_each has add track register_token
    ensure_token handle_pair_created index_log update_reserves index_swaps index_mints index_burns
    index_pair_events handle_created_log process_block_range save_block poll_from poll poll_tick
    poll_ticks swap_row liquidity_row lower
indexer = tt

-- The first tick starts at the head, and tracks no pair that was created before.
first_tick :
    ((poll_tick node factory fresh).1.last_processed ≡ 3)
    × ((poll_tick node factory fresh).1.tracked_pairs ≡ [])
unfolding indexer
first_tick = (refl, refl)

created : (handle_pair_created node (codes "0xA0") (codes "0xB0") (codes "0xAB") 2 fresh).0 ≡ ok tt
unfolding indexer
created = refl

handle_pair_created-idempotent_example :
    let w = (handle_pair_created node (codes "0xA0") (codes "0xB0") (codes "0xAB") 2 fresh).1 in
    (has w.tracked_pairs (lower (codes "0xAB")) ≡ true)
    × (handle_pair_created node (codes "0xA1") (codes "0xB1") (codes "0xAB") 9 w ≡ (ok tt, w))
handle_pair_created-idempotent_example =
    handle_pair_created-idempotent node (codes "0xA0") (codes "0xB0") (codes "0xAB") 2
      (codes "0xA1") (codes "0xB1") 9 fresh created

process_block_range-Tracks_example : Moves Tracks (process_block_range node factory 0 9)
process_block_range-Tracks_example = process_block_range-Tracks node factory 0 9

index_pair_events-Writes_example :
    Writes (index_pair_events node pair 0 9) (pair_rows ledger pair 0 9)
index_pair_events-Writes_example = index_pair_events-Writes node ledger pair 0 9 node-IsSteady

sync_batches-partition_example :
    (rs : List Range) × (sync_batches node factory 702 10 700 fresh
      ≡ for_each (process node factory) rs fresh)
    × ((b : ℕ) → hits b rs ≡ holds b (10, 700))
    × All (λ r. width r ≤ batch_size) rs
sync_batches-partition_example = sync_batches-partition node factory 10 700 fresh

poll_ticks-covers_example :
    (rs : List Range) × All (WasProcessed node factory) rs
    × ((b : ℕ) → hits b rs ≡ holds b (2, (poll_ticks node factory 3 polled).1.last_processed))
    × (1 ≤ (poll_ticks node factory 3 polled).1.last_processed)
poll_ticks-covers_example = poll_ticks-covers node factory 3 polled (omega arith)

abbrev always : {A : Type 0} (a : A) → Answers (λ h. some a)
always a = record { given = λ h. (a, refl) }

node-IsLive : IsLive node
node-IsLive = record {
  tokens = λ a. always false;
  created = λ f from to. record { given = λ h. (_, refl) };
  swaps = λ a from to. record { given = λ h. (_, refl) };
  mints = λ a from to. record { given = λ h. (_, refl) };
  burns = λ a from to. record { given = λ h. (_, refl) };
  syncs = λ a from to. record { given = λ h. (_, refl) };
  blocks = λ n. record { given = λ h. (_, refl) };
  writes = λ h c. refl;
}

poll_tick-reaches_example :
    ((poll_tick node factory polled).1.last_processed ≡ 3)
    × (rest : History) × ((poll_tick node factory polled).1.history
        ≡ write (upsert_state (codes "lastBlock") (to_string 3)) true ∷ rest)
poll_tick-reaches_example = poll_tick-reaches node factory polled 3 node-IsLive refl (omega arith)
