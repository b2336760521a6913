-- ===== src/Tests/Polling.antt =====
-- The start of the indexer, and its ticks.
use energy_chain.Shared.{refl}
use energy_chain.Shared.Text.{Text, codes}
use energy_chain.Indexer.Returns.{Returns}
use energy_chain.Indexer.Poll.{poll_ticks, start}
use energy_chain.Indexer.Poll.Overlap.{Timer, Reach, resting}
use energy_chain.Indexer.Poll.Refine.{Shows, poll_ticks-refines}
use energy_chain.Indexer.Poll.Start.{IsUp, start-Returns}
use mathlib.Core.Option.{none-ne-some, some-injective}
use energy_chain.Tests.Node.{node, polled}

abbrev factory : Text
factory = codes "0xF"

node-IsUp : IsUp node
node-IsUp = record {
  live = record {
    tokens = λ a. record { given = λ h. (_, refl) };
    created = λ f from to. record { given = λ h. (_, refl) };
    swaps = λ a from to. record { given = λ h. (_, refl) };
    mints = λ a from to. record { given = λ h. (_, refl) };
    burns = λ a from to. record { given = λ h. (_, refl) };
    syncs = λ a from to. record { given = λ h. (_, refl) };
    blocks = λ n. record { given = λ h. (_, refl) };
    writes = λ h c. refl;
  };
  pairs = record { given = λ h. (_, refl) };
  states = λ k. record { given = λ h. (_, refl) };
  heads = record { given = λ h. (_, refl) };
  stored = λ h value n e. absurd (none-ne-some value (some-injective _ _ e));
}

start-Returns_example : Returns (start node factory 1 2)
start-Returns_example = start-Returns node factory 1 2 node-IsUp

poll_ticks-refines_example :
    (t : Timer) × Reach (resting 1) t × Shows node factory (poll_ticks node factory 3 polled).1 t
poll_ticks-refines_example = poll_ticks-refines node factory 3 polled
