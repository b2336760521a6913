-- ===== src/Indexer/Events/Tracked.antt =====
-- What a range of blocks does to the tracked pairs, whatever the node and the database answer.
use energy_chain.Shared.{ℕ, List, last?, Option-cases, inl, inr}
use energy_chain.Shared.Text.{Text}
use energy_chain.Indexer.Data.{Log, CreatedArgs, SyncArgs, Env, Write}
use energy_chain.Indexer.Moves.{Moves, moves_rules, Moves-pure, Moves-send}
use energy_chain.Indexer.Pairs.Tracked.{Tracks, Tracks-IsFrame}
use energy_chain.Indexer.Pairs.Created.{handle_pair_created-Tracks}
use energy_chain.Indexer.Events.{
  index_log, update_reserves, index_swaps, index_mints, index_burns, index_pair_events,
  handle_created_log, process_block_range,
}

module _ (env : Env) where
  index_log-Tracks :
      {A : Type 0} (make : Log A → A → ℕ → Write) (log : Log A)
      → Moves Tracks (index_log env make log)
  unfolding index_log
  index_log-Tracks make log = elim (Option-cases log.parsed) [
    | inl skipped ↦ rw (skipped, index_log) (Moves-pure Tracks-IsFrame tt)
    | inr (args, e) ↦ rw (e, index_log) (search (moves_rules, Tracks-IsFrame))
  ]

  update_reserves-Tracks :
      (a : Text) (logs : List (Log SyncArgs)) → Moves Tracks (update_reserves env a logs)
  unfolding update_reserves
  update_reserves-Tracks a logs = elim (Option-cases (last? logs)) [
    | inl empty ↦ rw (empty, update_reserves) (Moves-pure Tracks-IsFrame tt)
    | inr (log, e) ↦ elim (Option-cases log.parsed) [
      | inl skipped ↦ rw (e, skipped, update_reserves) (Moves-pure Tracks-IsFrame tt)
      | inr (args, p) ↦ rw (e, p, update_reserves) (Moves-send Tracks-IsFrame env _)
    ]
  ]

  index_pair_events-Tracks :
      (a : Text) (from to : ℕ) → Moves Tracks (index_pair_events env a from to)
  unfolding index_pair_events index_swaps index_mints index_burns
  index_pair_events-Tracks a from to =
      search (moves_rules, Tracks-IsFrame, index_log-Tracks, update_reserves-Tracks) depth 14

  handle_created_log-Tracks : (log : Log CreatedArgs) → Moves Tracks (handle_created_log env log)
  unfolding handle_created_log
  handle_created_log-Tracks log = elim (Option-cases log.parsed) [
    | inl skipped ↦ rw (skipped, handle_created_log) (Moves-pure Tracks-IsFrame tt)
    | inr (args, e) ↦
        rw (e, handle_created_log)
          (handle_pair_created-Tracks env args.token0 args.token1 args.pair log.block_number)
  ]

  -- Whatever is answered, and whether or not the call throws, a range of blocks loses no tracked
  -- pair, keeps the set duplicate-free and in lower case and backed by the database, and does not
  -- touch the block of the poll.
  pub process_block_range-Tracks :
      (factory : Text) (from to : ℕ) → Moves Tracks (process_block_range env factory from to)
  unfolding process_block_range
  process_block_range-Tracks factory from to =
      search (moves_rules, Tracks-IsFrame, handle_created_log-Tracks, index_pair_events-Tracks)
        depth 8
