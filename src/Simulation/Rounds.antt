-- ===== src/Simulation/Rounds.antt =====
-- The outer loop of the trading bot, for a number of rounds: a phase of trades, and the two balances
-- that are printed behind it.
use energy_chain.Shared.{
  ℕ, suc, ◌+◌, ◌≤◌, ◌≡◌, refl, ap, ◌∙◌, List, [], ◌∷◌, Option, none, some, length, arith,
}
use energy_chain.Shared.Text.{Text}
use energy_chain.Scripts.Steps.{
  Act, View, get_balance, balance_of, Node, Script, ◌>>=◌, ◌>>◌, return, ask, expect, Contracts,
}
use energy_chain.Simulation.{run_phase, Phase, Draw, Counts, phase_config, phase_of}
use energy_chain.Simulation.Bounds.{phase_of-cycle}
use energy_chain.Simulation.Calls.{endings, run_trades, run_trades-counts}

module _ (n : Node) (contracts : Contracts) (deployer : Text) where
  -- What follows the trades of a phase.
  unfoldable pub end_phase : Counts → Script Counts
  end_phase c = do
    ask n (get_balance deployer)
    ask n (balance_of contracts.test_usdt deployer)
    return c

  -- A round, on what is drawn for its trades; a phase that is undefined throws.
  unfoldable pub run_round : ℕ → List (Draw × ℕ) → Counts → Script Counts
  run_round round draws c = elim (phase_of round) [
    | none ↦ expect none
    | some p ↦ run_trades n contracts deployer (phase_config p) draws c >>= end_phase
  ]

  -- The rounds from one on, each on what is drawn for it.
  unfoldable pub run_rounds : ℕ → List (List (Draw × ℕ)) → Counts → Script Counts
  run_rounds round [] c = return c
  run_rounds round (draws ∷ rest) c = run_round round draws c >>= run_rounds (suc round) rest

  -- The trades of all rounds.
  abbrev pub trades_in : List (List (Draw × ℕ)) → ℕ
  trades_in [] = 0
  trades_in (draws ∷ rest) = length draws + trades_in rest

  -- Every view is answered.
  pub record IsAnswered : Type 0 where
    pub answer : (acts : List Act) (view : View) → (ns : List ℕ) × (n.numbers acts view ≡ some ns)

  abbrev pub CountsOf : Script Counts → List Act → ℕ → Type 0
  CountsOf s acts total = (d : Counts) × ((s acts).1 ≡ some d) × (d.total_trades ≡ total)

  next-eq :
      {A B : Type 0} (m : Script A) (f : A → Script B) (acts : List Act) (a : A)
      → (m acts).1 ≡ some a
      → (m >>= f) acts ≡ f a ((m acts).0)
  unfolding ◌>>=◌
  next-eq m f acts a e = rw (e, ◌>>=◌) refl

  -- The script of a round, by its phase.
  abbrev round_of : List (Draw × ℕ) → Counts → Option Phase → Script Counts
  round_of draws c none = expect none
  round_of draws c (some p) = run_trades n contracts deployer (phase_config p) draws c >>= end_phase

  run_round-eq :
      (round : ℕ) (draws : List (Draw × ℕ)) (c : Counts) (p : Phase)
      → phase_of round ≡ some p
      → run_round round draws c ≡ round_of draws c (some p)
  unfolding run_round
  run_round-eq round draws c p e = go (phase_of round) ∙ ap (round_of draws c) e
    where
      go :
          (o : Option Phase)
          → (elim o as (λ _. Script Counts) [
            | none ↦ expect none
            | some p ↦ run_trades n contracts deployer (phase_config p) draws c >>= end_phase
          ])
            ≡ round_of draws c o
      go none = refl
      go (some p) = refl

  module _ (answered : IsAnswered) where
    end_phase-eq : (c : Counts) (acts : List Act) → (end_phase c acts).1 ≡ some c
    unfolding end_phase ask return ◌>>=◌
    end_phase-eq c acts =
        let (b, e) = answered.answer acts (get_balance deployer) in
        let (t, e') = answered.answer acts (balance_of contracts.test_usdt deployer) in
        rw (e, e') refl

    run_round-total :
        (round : ℕ) (draws : List (Draw × ℕ)) (c : Counts) (acts : List Act)
        → 1 ≤ round
        → CountsOf (run_round round draws c) acts (c.total_trades + length draws)
    run_round-total round draws c acts h =
        let (p, e, again) = phase_of-cycle round h in
        let m = run_trades n contracts deployer (phase_config p) draws c in
        let d =
          run_phase (phase_config p) (endings n contracts deployer (phase_config p) draws acts) c in
        let (runs, total, sides) =
          run_trades-counts n contracts deployer (phase_config p) draws c acts in
        let returns : (m acts).1 ≡ some d = ap (λ o. o.1) runs in
        (
          d,
          ap (λ s. (s acts).1) (run_round-eq round draws c p e)
              ∙ rw (next-eq m end_phase acts d returns) (end_phase-eq d ((m acts).0)),
          total,
        )

    run_rounds-total :
        (round : ℕ) (rest : List (List (Draw × ℕ))) (c : Counts) (acts : List Act)
        → 1 ≤ round
        → CountsOf (run_rounds round rest c) acts (c.total_trades + trades_in rest)
    unfolding run_rounds return
    run_rounds-total round [] c acts h = (c, refl, omega arith)
    run_rounds-total round (draws ∷ rest) c acts h =
        let m = run_round round draws c in
        let (d, e, total) = run_round-total round draws c acts h in
        let (d', e', total') =
          run_rounds-total (suc round) rest d ((m acts).0) (omega (arith, h)) in
        (d', rw (next-eq m (run_rounds (suc round) rest) acts d e) e', omega (arith, total, total'))

-- While the views are answered, no transaction that fails stops the bot: from the first round on it
-- comes through any number of rounds, and has counted every trade of them.
pub run_rounds-keeps_on :
    (n : Node) (contracts : Contracts) (deployer : Text) (rounds : List (List (Draw × ℕ)))
    (c : Counts) (acts : List Act)
    → IsAnswered n contracts deployer
    → CountsOf n contracts deployer
        (run_rounds n contracts deployer 1 rounds c)
        acts
        (c.total_trades + trades_in n contracts deployer rounds)
run_rounds-keeps_on n contracts deployer rounds c acts answered =
    run_rounds-total n contracts deployer answered 1 rounds c acts (omega arith)
