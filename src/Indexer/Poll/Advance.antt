-- ===== src/Indexer/Poll/Advance.antt =====
-- How the block of the poll advances, tick by tick.
use energy_chain.Shared.{
  ℕ, ◌++◌, All-append, zero, suc, ◌≤◌, ◌<◌, ◌≡◌, refl, ap, sym, ◌∙◌, subst, some, List, [], ◌∷◌,
  inl, inr, ◌⊎◌, All, leb, if◌then◌else◌, leb-false→lt, Bool-cases, Option-cases, arith,
}
use energy_chain.Shared.Text.{Text}
use energy_chain.Indexer.Data.{Env, World, get_block_number}
use energy_chain.Indexer.Action.{
  Action, Result, ok, threw, pure, gets, modify, catch, call, send, asked, ◌>>=◌, ◌>>◌, call-some,
  call-none, bind_ok, bind_threw,
}
use energy_chain.Indexer.Events.{process_block_range}
use energy_chain.Indexer.Events.Tracked.{process_block_range-Tracks}
use energy_chain.Indexer.Sync.{save_block}
use energy_chain.Indexer.Ranges.{hits-append, Range, holds, hits, holds-join}
use energy_chain.Indexer.Poll.{poll_from, poll, poll_tick, poll_ticks}

Result-cases :
    {A : Type 0} (p : Result A × World) → (p ≡ (threw, p.1)) ⊎ ((a : A) × (p ≡ (ok a, p.1)))
Result-cases (ok a, w) = inr (a, refl)
Result-cases (threw, w) = inl refl

module _ (env : Env) (factory : Text) where
  -- The whole range up to the head was processed, and the head is the block to go on from.
  pub record Advanced (w w' : World) : Type 0 where
    pub head : ℕ
    pub reported : env.block_number_reply w.history ≡ some head
    pub newer : w.last_processed < head
    pub reached : w'.last_processed ≡ head
    pub processed :
        (process_block_range env factory
          (poll_from w.last_processed head)
          head
          (asked get_block_number w)).0
        ≡ ok tt

  abbrev Outcome : World → World → Type 0
  Outcome w w' = (w'.last_processed ≡ w.last_processed) ⊎ Advanced w w'

  -- The steps behind the query of the head.
  abbrev pub advance_to : ℕ → ℕ → Action (Unit {0})
  advance_to last head =
      process_block_range env factory (poll_from last head) head
      >> (modify (λ w. record w { last_processed = head }) >> save_block env head)

  pub save_last :
      (head : ℕ) (w : World)
      → ((modify (λ w. record w { last_processed = head }) >> save_block env head)
          w).1.last_processed
        ≡ head
  unfolding modify ◌>>=◌ save_block send
  save_last head w = refl

  advance_to-Outcome :
      (w : World) (head : ℕ)
      → env.block_number_reply w.history ≡ some head
      → w.last_processed < head
      → Outcome w (advance_to w.last_processed head (asked get_block_number w)).1
  advance_to-Outcome w head reported newer =
      let u = asked get_block_number w in
      let range = process_block_range env factory (poll_from w.last_processed head) head in
      elim (Result-cases (range u)) [
        | inl failed ↦ inl (
            ap (λ (p : Result (Unit {0}) × World). p.1.last_processed)
              (bind_threw range _ u _ failed)
            ∙ ((process_block_range-Tracks env factory _ head).at u).last)
        | inr (a, done) ↦ inr (record {
          head = head;
          reported = reported;
          newer = newer;
          reached =
              ap (λ (p : Result (Unit {0}) × World). p.1.last_processed)
                (bind_ok range _ a u _ done)
              ∙ save_last head (range u).1;
          processed = ap (λ (p : Result (Unit {0}) × World). p.0) done ∙ unit_ok a;
        })
      ]
    where
      unit_ok : (a : Unit {0}) → ok a ≡ ok tt
      unit_ok tt = refl

  after_head :
      (w : World) (head : ℕ)
      → env.block_number_reply w.history ≡ some head
      → Outcome w
          ((gets (λ v. v.last_processed) >>= λ last.
              if leb head last then pure tt else advance_to last head)
            (asked get_block_number w)).1
  after_head w head reported = elim (Bool-cases (leb head w.last_processed)) [
    | inl old ↦ inl (unfold gets pure ◌>>=◌ in rw old)
    | inr newer ↦
        unfold gets ◌>>=◌ in
        rw newer (advance_to-Outcome w head reported (leb-false→lt head w.last_processed newer))
  ]

  poll-Outcome : (w : World) → Outcome w (poll env factory w).1
  unfolding poll
  poll-Outcome w =
      let ask = call get_block_number env.block_number_reply in
      elim (Option-cases (env.block_number_reply w.history)) [
        | inl failed ↦ inl (
            ap (λ (p : Result (Unit {0}) × World). p.1.last_processed)
              (bind_threw ask _ w _ (call-none get_block_number env.block_number_reply w failed)))
        | inr (head, reported) ↦
            subst (λ (p : Result (Unit {0}) × World). Outcome w p.1)
              (sym (
                bind_ok ask _ head w _
                  (call-some get_block_number env.block_number_reply head w reported)))
              (after_head w head reported)
      ]

  caught :
      (p : Result (Unit {0}) × World)
      → (elim p.0 as (λ _. Result (Unit {0}) × World) [ ok a ↦ (ok a, p.1) | threw ↦ (ok tt, p.1) ])
        ≡ (ok tt, p.1)
  caught (ok tt, w) = refl
  caught (threw, w) = refl

  -- The callback catches every exception, and leaves what its body left.
  pub poll_tick-eq : (w : World) → poll_tick env factory w ≡ (ok tt, (poll env factory w).1)
  unfolding poll_tick catch pure
  poll_tick-eq w = caught (poll env factory w)

-- A tick of the timer never throws. It leaves the block of the poll as it was, or moves it on to
-- the head that the node reported, which is higher; it moves it only if the whole range of blocks
-- up to the head was processed without an exception.
pub poll_tick-advances :
    (env : Env) (factory : Text) (w : World)
    → ((poll_tick env factory w).0 ≡ ok tt)
      × (((poll_tick env factory w).1.last_processed ≡ w.last_processed)
          ⊎ Advanced env factory w (poll_tick env factory w).1)
poll_tick-advances env factory w =
    rw (poll_tick-eq env factory w) (refl, poll-Outcome env factory w)

-- The range was processed without an exception, at some time.
abbrev pub WasProcessed : Env → Text → Range → Type 0
WasProcessed env factory r = (u : World) × ((process_block_range env factory r.0 r.1 u).0 ≡ ok tt)

-- What the ticks from one world to another have covered.
abbrev Covered : Env → Text → World → World → Type 0
Covered env factory w v =
    (rs : List Range) × All (WasProcessed env factory) rs
    × ((b : ℕ) → hits b rs ≡ holds b (suc w.last_processed, v.last_processed))
    × (w.last_processed ≤ v.last_processed)

pub poll_from-pos : (last head : ℕ) → 0 < last → poll_from last head ≡ suc last
unfolding poll_from
poll_from-pos last head h = ground arith

tick-Covered :
    (env : Env) (factory : Text) (w v : World)
    → 0 < w.last_processed
    → ((v.last_processed ≡ w.last_processed) ⊎ Advanced env factory w v)
    → Covered env factory w v
tick-Covered env factory w v h (inl same) = ([], tt, (λ b. ground arith), omega arith)
tick-Covered env factory w v h (inr step) = (
  (suc w.last_processed, step.head) ∷ [],
  (
    (
      asked get_block_number w,
      subst
          (λ from.
            (process_block_range env factory from step.head (asked get_block_number w)).0 ≡ ok tt)
          (poll_from-pos w.last_processed step.head h) step.processed,
    ),
    tt,
  ),
  (λ b. rw step.reached (omega arith)),
  omega (arith, step.newer, step.reached),
)

Covered-trans :
    (env : Env) (factory : Text) (u v w : World)
    → Covered env factory u v
    → Covered env factory v w
    → Covered env factory u w
Covered-trans env factory u v w (rs, done, exact, le) (ss, done', exact', le') = (
  rs ++ ss,
  All-append _ rs ss done done',
  (λ b. omega (
    arith,
    hits-append b rs ss,
    exact b,
    exact' b,
    holds-join b (suc u.last_processed) v.last_processed w.last_processed (omega arith) le',
  )),
  omega arith,
)

poll_ticks-Covered :
    (env : Env) (factory : Text) (n : ℕ) (w : World)
    → 0 < w.last_processed
    → Covered env factory w (poll_ticks env factory n w).1
unfolding poll_ticks pure
poll_ticks-Covered env factory zero w h = ([], tt, (λ b. ground arith), omega arith)
poll_ticks-Covered env factory (suc n) w h =
    let v = (poll env factory w).1 in
    let first = tick-Covered env factory w v h (poll-Outcome env factory w) in
    subst (λ (p : Result (Unit {0}) × World). Covered env factory w p.1)
      (sym (
        bind_ok (poll_tick env factory) (λ _. poll_ticks env factory n) tt w v
          (poll_tick-eq env factory w)))
      (Covered-trans env factory w v (poll_ticks env factory n v).1 first
        (poll_ticks-Covered env factory n v (omega (arith, first.3))))

-- Once a block has been processed, any number of ticks, failing ones among them, covers every
-- later block up to the block of the poll exactly once: there are ranges, each processed without an
-- exception, that hold each of these blocks once and no other block.
pub poll_ticks-covers :
    (env : Env) (factory : Text) (n : ℕ) (w : World)
    → 0 < w.last_processed
    → (rs : List Range) × All (WasProcessed env factory) rs
      × ((b : ℕ)
          → hits b rs
            ≡ holds b (suc w.last_processed, (poll_ticks env factory n w).1.last_processed))
      × (w.last_processed ≤ (poll_ticks env factory n w).1.last_processed)
poll_ticks-covers env factory n w h = poll_ticks-Covered env factory n w h
