-- ===== src/Indexer/Poll/Progress.antt =====
-- With a node and a database that answer, nothing throws, and the poll reaches the head.
use energy_chain.Shared.{
  false, ℕ, ◌<◌, ◌≡◌, refl, ap, ◌∙◌, true, List, ◌∷◌, some, inl, inr, last?, Option-cases, arith,
  leb,
}
use energy_chain.Shared.Text.{Text, codes, lower}
use energy_chain.Shared.Number.{to_string}
use energy_chain.Indexer.Data.{
  Env, World, Write, Log, CreatedArgs, SyncArgs, History, write, upsert_state, get_block_number,
}
use energy_chain.Indexer.Action.{send, asked, ◌>>=◌, modify, gets, call, call-some, bind_ok}
use energy_chain.Indexer.Sync.{save_block}
use energy_chain.Indexer.Poll.{poll_from, poll, poll_tick}
use energy_chain.Indexer.Poll.Advance.{advance_to, save_last, poll_tick-eq}
use energy_chain.Indexer.Returns.{Returns, Answers, returns_rules, Returns-pure}
use energy_chain.Indexer.Pairs.{track, register_token, ensure_token, handle_pair_created}
use energy_chain.Indexer.Events.{
  index_log, update_reserves, index_swaps, index_mints, index_burns, index_pair_events,
  handle_created_log, process_block_range,
}

older-leb : (last head : ℕ) → last < head → leb head last ≡ false
older-leb last head h = ground arith

-- Every query is answered, and the database takes every write.
pub record IsLive (env : Env) : Type 0 where
  pub tokens : (a : Text) → Answers (λ h. env.token_reply h a)
  pub created : (f : Text) (from to : ℕ) → Answers (λ h. env.created_reply h f from to)
  pub swaps : (a : Text) (from to : ℕ) → Answers (λ h. env.swaps_reply h a from to)
  pub mints : (a : Text) (from to : ℕ) → Answers (λ h. env.mints_reply h a from to)
  pub burns : (a : Text) (from to : ℕ) → Answers (λ h. env.burns_reply h a from to)
  pub syncs : (a : Text) (from to : ℕ) → Answers (λ h. env.syncs_reply h a from to)
  pub blocks : (n : ℕ) → Answers (λ h. env.block_reply h n)
  pub writes : (h : History) (c : Write) → env.write_reply h c ≡ true

module _ {env : Env} (live : IsLive env) where
  open live use {tokens, created, swaps, mints, burns, syncs, blocks}

  pub send-Returns : (c : Write) → Returns (send env c)
  unfolding send
  send-Returns c = record { at = λ w. (tt, rw (live.writes w.history c) refl) }

  pub track-Returns : (a : Text) → Returns (track a)
  unfolding track
  track-Returns a = search returns_rules

  register_token-Returns : (a : Text) → Returns (register_token env a)
  unfolding register_token
  register_token-Returns a = search (returns_rules, send-Returns) depth 8

  ensure_token-Returns : (a : Text) → Returns (ensure_token env a)
  unfolding ensure_token
  ensure_token-Returns a = search (returns_rules, register_token-Returns, tokens (lower a)) depth 8

  handle_pair_created-Returns :
      (t0 t1 pair : Text) (n : ℕ) → Returns (handle_pair_created env t0 t1 pair n)
  unfolding handle_pair_created
  handle_pair_created-Returns t0 t1 pair n =
      search (returns_rules, ensure_token-Returns, send-Returns, track-Returns) depth 10

  handle_created_log-Returns : (log : Log CreatedArgs) → Returns (handle_created_log env log)
  unfolding handle_created_log
  handle_created_log-Returns log = elim (Option-cases log.parsed) [
    | inl skipped ↦ rw (skipped, handle_created_log) (Returns-pure tt)
    | inr (args, e) ↦
        rw (e, handle_created_log)
          (handle_pair_created-Returns args.token0 args.token1 args.pair log.block_number)
  ]

  index_log-Returns :
      {A : Type 0} (make : Log A → A → ℕ → Write) (log : Log A) → Returns (index_log env make log)
  unfolding index_log
  index_log-Returns make log = elim (Option-cases log.parsed) [
    | inl skipped ↦ rw (skipped, index_log) (Returns-pure tt)
    | inr (args, e) ↦
        rw (e, index_log) (search (returns_rules, send-Returns, blocks log.block_number) depth 6)
  ]

  update_reserves-Returns :
      (a : Text) (logs : List (Log SyncArgs)) → Returns (update_reserves env a logs)
  unfolding update_reserves
  update_reserves-Returns a logs = elim (Option-cases (last? logs)) [
    | inl empty ↦ rw (empty, update_reserves) (Returns-pure tt)
    | inr (log, e) ↦ elim (Option-cases log.parsed) [
      | inl skipped ↦ rw (e, skipped, update_reserves) (Returns-pure tt)
      | inr (args, p) ↦ rw (e, p, update_reserves) (send-Returns _)
    ]
  ]

  index_pair_events-Returns : (a : Text) (from to : ℕ) → Returns (index_pair_events env a from to)
  unfolding index_pair_events index_swaps index_mints index_burns
  index_pair_events-Returns a from to =
      search
        (
          returns_rules,
          swaps a from to,
          mints a from to,
          burns a from to,
          syncs a from to,
          index_log-Returns,
          update_reserves-Returns,
        )
        depth 14

  pub process_block_range-Returns :
      (factory : Text) (from to : ℕ) → Returns (process_block_range env factory from to)
  unfolding process_block_range
  process_block_range-Returns factory from to =
      search
        (
          returns_rules,
          created factory from to,
          handle_created_log-Returns,
          index_pair_events-Returns,
        )
        depth 8

  -- The steps behind the query of the head, when the range returns.
  advance_to-reaches :
      (factory : Text) (last head : ℕ) (w : World)
      → ((advance_to env factory last head w).1.last_processed ≡ head)
        × (rest : History) × ((advance_to env factory last head w).1.history
            ≡ write (upsert_state (codes "lastBlock") (to_string head)) true ∷ rest)
  advance_to-reaches factory last head w =
      let range = process_block_range env factory (poll_from last head) head in
      let (a, e) = (process_block_range-Returns factory (poll_from last head) head).at w in
      let u = (range w).1 in
      rw (bind_ok range _ a w u (ap (λ r. (r, u)) e)) (
        save_last env factory head u,
        u.history,
        unfold modify ◌>>=◌ save_block send in
            rw (live.writes u.history (upsert_state (codes "lastBlock") (to_string head))) refl,
      )

  poll-reaches :
      (factory : Text) (w : World) (head : ℕ)
      → env.block_number_reply w.history ≡ some head
      → w.last_processed < head
      → (poll env factory w)
        ≡ advance_to env factory w.last_processed head (asked get_block_number w)
  unfolding poll
  poll-reaches factory w head reported newer =
      bind_ok (call get_block_number env.block_number_reply) _ head w _
        (call-some get_block_number env.block_number_reply head w reported)
      ∙ (unfold gets ◌>>=◌ in rw (older-leb w.last_processed head newer) refl)

-- With a node and a database that answer, a tick that finds a higher head ends with this head as the
-- block of the poll, and its last call has stored it.
pub poll_tick-reaches :
    (env : Env) (factory : Text) (w : World) (head : ℕ)
    → IsLive env
    → env.block_number_reply w.history ≡ some head
    → w.last_processed < head
    → ((poll_tick env factory w).1.last_processed ≡ head)
      × (rest : History) × ((poll_tick env factory w).1.history
          ≡ write (upsert_state (codes "lastBlock") (to_string head)) true ∷ rest)
poll_tick-reaches env factory w head live reported newer =
    rw (poll_tick-eq env factory w, poll-reaches live factory w head reported newer)
      (advance_to-reaches live factory w.last_processed head (asked get_block_number w))
