-- ===== src/Indexer/Poll/Start.antt =====
-- `start` comes to its end.
use energy_chain.Shared.{
  ℕ, zero, suc, ◌+◌, ◌<◌, ◌≡◌, ◌≢◌, ◌∙◌, ap, sym, refl, Option, none, some, inl, inr, arith, leb,
  leb→le, Bool-cases, min, ◌-◌,
}
use energy_chain.Shared.Text.{Text, codes}
use energy_chain.Shared.Int.{ℤ, pos, negsuc}
use energy_chain.Shared.Number.{parse_int}
use mathlib.Core.Option.{some-injective}
use energy_chain.Indexer.Data.{Env, History}
use energy_chain.Indexer.Returns.{
  Returns, Answers, returns_rules, Returns-bind, Returns-call, Returns-call_then, Returns-pure,
  Returns-if,
}
use energy_chain.Indexer.Pairs.{load_existing_pairs}
use energy_chain.Indexer.Sync.{
  batch_size, sync_batches, save_block, from_block, sync_from, sync_historical,
}
use energy_chain.Indexer.Poll.{poll_tick, poll_ticks, start}
use energy_chain.Indexer.Poll.Advance.{poll_tick-eq}
use energy_chain.Indexer.Poll.Progress.{
  IsLive, process_block_range-Returns, send-Returns, track-Returns,
}

-- Besides, the queries of the start are answered, and the block that is stored, if it is read as a
-- number, is not below -1.
pub record IsUp (env : Env) : Type 0 where
  pub live : IsLive env
  pub pairs : Answers env.pairs_reply
  pub states : (k : Text) → Answers (λ h. env.state_reply h k)
  pub heads : Answers env.block_number_reply
  pub stored :
      (h : History) (value : Text) (n : ℕ)
      → env.state_reply h (codes "lastBlock") ≡ some (some value)
      → parse_int value ≢ some (negsuc (suc n))

module _ {env : Env} (up : IsUp env) (factory : Text) where
  save_block-Returns : (block : ℕ) → Returns (save_block env block)
  unfolding save_block
  save_block-Returns block = send-Returns up.live _

  -- The fuel is enough, so the loop ends by its test.
  sync_batches-Returns :
      (fuel from current : ℕ)
      → current < from + fuel
      → Returns (sync_batches env factory (suc fuel) from current)
  unfolding sync_batches
  sync_batches-Returns zero from current h = elim (Bool-cases (leb from current)) [
    | inl more ↦ absurd (omega (arith, leb→le from current more))
    | inr done ↦ rw done (Returns-pure tt)
  ]
  sync_batches-Returns (suc fuel) from current h = elim (Bool-cases (leb from current)) [
    | inl more ↦ rw more (
        Returns-bind
          (process_block_range-Returns up.live factory from (min (from + batch_size - 1) current))
          (λ _. sync_batches-Returns fuel (from + batch_size) current (omega arith)))
    | inr done ↦ rw done (Returns-pure tt)
  ]

  sync_from-Returns :
      (from : Option ℤ) (current : ℕ)
      → ((n : ℕ) → from ≢ some (negsuc n))
      → Returns (sync_from env factory from current)
  unfolding sync_from
  sync_from-Returns none current known = save_block-Returns current
  sync_from-Returns (some (negsuc n)) current known = absurd (known n refl)
  sync_from-Returns (some (pos from)) current known =
      let batches = sync_batches-Returns (suc current) from current (omega arith) in
      Returns-if (leb current from) (Returns-pure tt)
        (Returns-bind batches (λ _. save_block-Returns current))

  from_block-known :
      (start_block : ℕ) (state : Option Text) (z : Option ℤ)
      → ((value : Text) (n : ℕ) → state ≡ some value → parse_int value ≢ some (negsuc (suc n)))
      → ((value : Text) → state ≡ some value → parse_int value ≡ z)
      → (n : ℕ) → from_block start_block state ≢ some (negsuc n)
  unfolding from_block
  from_block-known start_block none z known e n same = cc same
  from_block-known start_block (some value) none known e n same =
      cc (rw (e value refl, from_block) at same)
  from_block-known start_block (some value) (some (pos k)) known e n same =
      cc (rw (e value refl, from_block) at same)
  from_block-known start_block (some value) (some (negsuc zero)) known e n same =
      cc (rw (e value refl, from_block) at same)
  from_block-known start_block (some value) (some (negsuc (suc k))) known e n same =
      absurd (known value k refl (e value refl))

  sync_historical-Returns : (start_block : ℕ) → Returns (sync_historical env factory start_block)
  unfolding sync_historical
  sync_historical-Returns start_block =
      Returns-call_then _ _ _ (up.states (codes "lastBlock")) (λ h state given.
        Returns-bind (Returns-call _ _ up.heads) (λ current.
          sync_from-Returns (from_block start_block state) current
            (known start_block state (λ value n e. up.stored h value n (given ∙ ap some e)))))
    where
      known :
          (start_block : ℕ) (state : Option Text)
          → ((value : Text) (n : ℕ) → state ≡ some value → parse_int value ≢ some (negsuc (suc n)))
          → (n : ℕ) → from_block start_block state ≢ some (negsuc n)
      known start_block none h = from_block-known start_block none none h (λ v e. cc e)
      known start_block (some value) h =
          from_block-known start_block (some value) (parse_int value) h
            (λ v e. ap parse_int (sym (some-injective _ _ e)))

  load_existing_pairs-Returns : Returns (load_existing_pairs env)
  unfolding load_existing_pairs
  load_existing_pairs-Returns = search (returns_rules, up.pairs, track-Returns up.live) depth 8

  poll_tick-Returns : Returns (poll_tick env factory)
  poll_tick-Returns = record { at = λ w. (tt, rw (poll_tick-eq env factory w) refl) }

  poll_ticks-Returns : (n : ℕ) → Returns (poll_ticks env factory n)
  unfolding poll_ticks
  poll_ticks-Returns zero = Returns-pure tt
  poll_ticks-Returns (suc n) = Returns-bind poll_tick-Returns (λ _. poll_ticks-Returns n)

  start-Returns_up : (start_block n : ℕ) → Returns (start env factory start_block n)
  unfolding start
  start-Returns_up start_block n =
      search
        (returns_rules, load_existing_pairs-Returns, sync_historical-Returns, poll_ticks-Returns)
        depth 8

-- With a node and a database that answer, and no number below -1 stored as the last block, `start`
-- comes to its end from any world, whatever else is stored, whatever first block is configured and
-- whatever head is reported: the loop over the batches ends by its test, no exception is thrown, and so
-- with any number of ticks behind it.
pub start-Returns :
    (env : Env) (factory : Text) (start_block n : ℕ)
    → IsUp env
    → Returns (start env factory start_block n)
start-Returns env factory start_block n up = start-Returns_up up factory start_block n
