-- ===== src/Indexer/Poll/Overlap.antt =====
-- The timer of `pollNewBlocks` with ticks that overlap: `setInterval` calls the next tick whether or
-- not the one before has ended. A tick reads the variable `lastProcessed` when it has the head, and
-- sets it when its range is processed.
use energy_chain.Shared.{ℕ, ◌<◌, ◌≡◌, List, [], ◌∷◌, ◌++◌}
use energy_chain.Indexer.Ranges.{Range}
use energy_chain.Indexer.Poll.{poll_from}

-- The variable, the ranges of the ticks that have not ended, and those that were processed.
pub record Timer : Type 0 where
  pub last : ℕ
  pub flights : List Range
  pub processed : List Range

pub data Step (t : Timer) : Timer → Type 0 where
  -- a tick that finds no higher head
  idle : Step t t
  -- a tick that finds a higher head starts on its range
  begin :
      (head : ℕ)
      → t.last < head
      → Step t (record t { flights = (poll_from t.last head, head) ∷ t.flights })
  -- the range of a tick is processed
  finish :
      (fs gs : List Range) (r : Range)
      → t.flights ≡ fs ++ r ∷ gs
      → Step t (record { last = r.1; flights = fs ++ gs; processed = r ∷ t.processed })
  -- a tick throws
  fail :
      (fs gs : List Range) (r : Range)
      → t.flights ≡ fs ++ r ∷ gs
      → Step t (record t { flights = fs ++ gs })

pub data Reach (s : Timer) : Timer → Type 0 where
  here : Reach s s
  next : {t u : Timer} → Reach s t → Step t u → Reach s u

pub Reach-trans : {s t u : Timer} → Reach s t → Reach t u → Reach s u
Reach-trans r here = r
Reach-trans r (next q st) = next (Reach-trans r q) st

-- The timer when `pollNewBlocks` has processed the block `last` and no tick runs.
abbrev pub resting : ℕ → Timer
resting last = record { last = last; flights = []; processed = [] }
