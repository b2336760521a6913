-- ===== src/Tests/Bot.antt =====
-- The trading bot on two trades.
use energy_chain.Shared.{◌+◌, ◌≡◌, refl, true, false, Bool, List, [], ◌∷◌}
use energy_chain.Simulation.{
  rally, breakout, phase_config, Draw, trade_of, rand_amount, buy, Counts, run_phase, count_trade,
  phase_of, delay_of, rand_int,
}
use energy_chain.Shared.{ℕ, none, some}
use energy_chain.Shared.Text.{codes}
use energy_chain.Scripts.Steps.{swap_exact_tokens_for_eth, Node, Contracts}
use energy_chain.Simulation.Totals.{failures}
use energy_chain.Simulation.Rounds.{
  IsAnswered, CountsOf, run_rounds, trades_in, run_rounds-keeps_on,
}
use energy_chain.Simulation.Calls.{endings, acts_behind, run_trades, run_trades-counts}

-- Half of the scale on every count.
abbrev half_draw : Draw
half_draw = record { side = 4503599627370496; amount = 4503599627370496; delay = 4503599627370496 }

abbrev none_yet : Counts
none_yet = record { total_trades = 0; buy_count = 0; sell_count = 0 }

abbrev draws : List (Draw × Bool)
draws = (half_draw, true) ∷ (half_draw, false) ∷ []

bot : Unit {0}
unfolding trade_of rand_amount phase_config run_phase count_trade delay_of rand_int phase_of
bot = tt

half_trade : trade_of (phase_config rally) half_draw ≡ buy 150000
unfolding bot
half_trade = refl

half_delay : delay_of (phase_config breakout) half_draw ≡ 1650
unfolding bot
half_delay = refl

-- A chain on which every swap of tokens fails.
abbrev node : Node
node = record {
  created = λ acts act. none;
  receipt =
      λ acts act. elim act [ swap_exact_tokens_for_eth _ _ _ _ _ _ ↦ none | _ ↦ some (some []) ];
  numbers = λ acts view. some (1 ∷ 2 ∷ []);
  address = λ acts view. none;
}

abbrev contracts : Contracts
contracts = record {
  wecy = codes "0xW";
  factory = codes "0xF";
  router = codes "0xR";
  multicall = codes "0xM";
  token_factory = codes "0xT";
  test_usdt = codes "0xU";
}

abbrev timed : List (Draw × ℕ)
timed = (half_draw, 9) ∷ (half_draw, 12) ∷ []

run_trades-counts_example :
    let ends = endings node contracts (codes "0xD") (phase_config rally) timed [] in
    let d = run_phase (phase_config rally) ends none_yet in
    (run_trades node contracts (codes "0xD") (phase_config rally) timed none_yet []
      ≡ (acts_behind node contracts (codes "0xD") (phase_config rally) timed [], some d))
    × (d.total_trades ≡ 0 + 2)
    × (d.buy_count + d.sell_count + failures ends ≡ 0 + 0 + 2)
run_trades-counts_example =
    run_trades-counts node contracts (codes "0xD") (phase_config rally) timed none_yet []

node-IsAnswered : IsAnswered node contracts (codes "0xD")
node-IsAnswered = record { answer = λ acts view. (_, refl) }

run_rounds-keeps_on_example :
    CountsOf node contracts
      (codes "0xD")
      (run_rounds node contracts (codes "0xD") 1 (timed ∷ timed ∷ []) none_yet)
      []
      (0 + trades_in node contracts (codes "0xD") (timed ∷ timed ∷ []))
run_rounds-keeps_on_example =
    run_rounds-keeps_on node contracts (codes "0xD") (timed ∷ timed ∷ []) none_yet []
      node-IsAnswered
