-- ===== src/Indexer/Poll/Refine.antt =====
-- The methods refine the timer: what a tick does to the indexer is a run of the timer's steps.
use energy_chain.Shared.{ℕ, zero, suc, ◌≡◌, refl, sym, ◌∙◌, subst, [], ◌∷◌, All, inl, inr, ◌⊎◌}
use energy_chain.Shared.Text.{Text}
use energy_chain.Indexer.Data.{Env, World, get_block_number}
use energy_chain.Indexer.Action.{Result, ok, pure, asked, bind_ok}
use energy_chain.Indexer.Ranges.{Range}
use energy_chain.Indexer.Poll.{poll_from, poll_tick, poll_ticks}
use energy_chain.Indexer.Poll.Advance.{Advanced, WasProcessed, poll_tick-eq, poll_tick-advances}
use energy_chain.Indexer.Poll.Overlap.{
  Timer, begin, finish, Reach, here, next, Reach-trans, resting,
}

-- The timer says of the indexer what it is, no tick runs, and its ranges were processed.
pub record Shows (env : Env) (factory : Text) (w : World) (t : Timer) : Type 0 where
  pub same_last : t.last ≡ w.last_processed
  pub at_rest : t.flights ≡ []
  pub truly : All (WasProcessed env factory) t.processed

module _ (env : Env) (factory : Text) where
  abbrev Refined : World → Timer → Type 0
  Refined v t = (u : Timer) × Reach t u × Shows env factory v u

  tick-Refined :
      (w v : World) (t : Timer)
      → Shows env factory w t
      → ((v.last_processed ≡ w.last_processed) ⊎ Advanced env factory w v)
      → Refined v t
  tick-Refined w v t s (inl same) =
      (t, here, record { same_last = s.same_last ∙ sym same; at_rest = s.at_rest; truly = s.truly })
  tick-Refined w v t s (inr step) =
      let r : Range = (poll_from t.last step.head, step.head) in
      (
        record { last = step.head; flights = []; processed = r ∷ t.processed },
        next (next here (begin step.head (rw s.same_last step.newer)))
            (finish [] [] r (rw s.at_rest refl)),
        record {
          same_last = sym step.reached;
          at_rest = refl;
          truly = ((asked get_block_number w, rw s.same_last step.processed), s.truly);
        },
      )

  poll_ticks-Refined :
      (n : ℕ) (w : World) (t : Timer)
      → Shows env factory w t
      → Refined (poll_ticks env factory n w).1 t
  unfolding poll_ticks pure
  poll_ticks-Refined zero w t s = (t, here, s)
  poll_ticks-Refined (suc n) w t s =
      let v = (poll_tick env factory w).1 in
      let (u, r, k) = tick-Refined w v t s (poll_tick-advances env factory w).1 in
      let (u', r', k') = poll_ticks-Refined n v u k in
      (
        u',
        Reach-trans r r',
        subst (λ (p : Result (Unit {0}) × World). Shows env factory p.1 u')
            (sym (
              bind_ok (poll_tick env factory) (λ _. poll_ticks env factory n) tt w v
                (poll_tick-ok w)))
            k',
      )
    where
      poll_tick-ok : (w : World) → poll_tick env factory w ≡ (ok tt, (poll_tick env factory w).1)
      poll_tick-ok w = rw (poll_tick-eq env factory w) refl

-- Any number of ticks, one after another, is a run of the timer from where it rests to a timer that
-- rests too, has the same block of the poll as the indexer, and counts a range as processed only if
-- `processBlockRange` returned on it.
pub poll_ticks-refines :
    (env : Env) (factory : Text) (n : ℕ) (w : World)
    → (t : Timer) × Reach (resting w.last_processed) t
      × Shows env factory (poll_ticks env factory n w).1 t
poll_ticks-refines env factory n w =
    poll_ticks-Refined env factory n w (resting w.last_processed)
      (record { same_last = refl; at_rest = refl; truly = tt })
