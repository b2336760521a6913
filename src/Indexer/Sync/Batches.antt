-- ===== src/Indexer/Sync/Batches.antt =====
-- The batches of `syncHistorical` make a partition of the blocks.
use energy_chain.Shared.{
  ℕ, zero, suc, ◌+◌, ◌-◌, ◌≤◌, ◌<◌, min, ◌≡◌, ap, List, [], ◌∷◌, inl, inr, leb, leb→le,
  leb-false→lt, Bool-cases, if◌then◌else◌, arith, All, fun_ext, sym,
}
use energy_chain.Shared.Text.{Text}
use energy_chain.Indexer.Data.{Env, World}
use energy_chain.Indexer.Action.{Action, for_each, ◌>>◌}
use energy_chain.Indexer.Events.{process_block_range}
use energy_chain.Indexer.Ranges.{Range, holds, hits, width, holds-empty}
use energy_chain.Indexer.Sync.{batch_size, sync_batches}

-- The ranges of the loop's rounds.
pub batches : ℕ → ℕ → ℕ → List Range
batches zero start current = []
batches (suc fuel) start current =
    let rest = batches fuel (start + batch_size) current in
    if leb start current then (start, min (start + batch_size - 1) current) ∷ rest else []

-- The first batch and the rest together hold each block once.
split :
    (b fuel start current : ℕ)
    → start ≤ current
    → hits b (batches fuel (start + batch_size) current) ≡ holds b (start + batch_size, current)
    → holds b (start, min (start + batch_size - 1) current)
        + hits b (batches fuel (start + batch_size) current)
      ≡ holds b (start, current)
split b fuel start current p e = rw e (ground arith)

hits-batches :
    (b fuel start current : ℕ)
    → current < start + fuel
    → hits b (batches fuel start current) ≡ holds b (start, current)
unfolding batches
hits-batches b zero start current h = ground arith
hits-batches b (suc fuel) start current h = elim (Bool-cases (leb start current)) [
  | inl more ↦ rw more (
      split b fuel start current (leb→le start current more)
        (hits-batches b fuel (start + batch_size) current (omega arith)))
  | inr done ↦ rw done (sym (holds-empty b start current (leb-false→lt start current done)))
]

width-batches :
    (fuel start current : ℕ) → All (λ r. width r ≤ batch_size) (batches fuel start current)
unfolding batches
width-batches zero start current = tt
width-batches (suc fuel) start current =
    ground (arith, width-batches fuel (start + batch_size) current)

module _ (env : Env) (factory : Text) where
  -- One round of the loop.
  abbrev pub process : Range → Action (Unit {0})
  process (from, to) = process_block_range env factory from to

  sync_batches-for_each :
      (fuel start current : ℕ) (w : World)
      → current < start + fuel
      → sync_batches env factory (suc fuel) start current w
        ≡ for_each process (batches (suc fuel) start current) w
  unfolding sync_batches batches for_each
  sync_batches-for_each zero start current w h = ground arith
  sync_batches-for_each (suc fuel) start current w h = elim (Bool-cases (leb start current)) [
    | inl more ↦ rw more (
        ap
          (λ (k : Action (Unit {0})).
            (process (start, min (start + batch_size - 1) current) >> k) w)
          (fun_ext
            (λ w'. sync_batches-for_each fuel (start + batch_size) current w' (omega arith))))
    | inr done ↦ rw done
  ]

-- With the fuel that `syncHistorical` gives it, the loop over `start` processes a list of ranges one
-- after another: each block from `start` to `current` lies in exactly one of them, no other block
-- lies in any, and none is wider than the batch size.
pub sync_batches-partition :
    (env : Env) (factory : Text) (start current : ℕ) (w : World)
    → (rs : List Range) × (sync_batches env factory (suc (suc current)) start current w
        ≡ for_each (process env factory) rs w)
      × ((b : ℕ) → hits b rs ≡ holds b (start, current))
      × All (λ r. width r ≤ batch_size) rs
sync_batches-partition env factory start current w = (
  batches (suc (suc current)) start current,
  sync_batches-for_each env factory (suc current) start current w (omega arith),
  λ b. hits-batches b (suc (suc current)) start current (omega arith),
  width-batches (suc (suc current)) start current,
)
