-- ===== src/Simulation/Calls.antt =====
-- The calls of the trading bot: its approval, and a trade with its `try`.
use energy_chain.Shared.{
  ℕ, suc, if◌then◌else◌, none, ◌+◌, ◌-◌, ◌*◌, ◌^◌, ◌≡◌, refl, Bool, true, false, List, [], ◌∷◌,
  Option, some, length, arith, ap, ◌∙◌,
}
use energy_chain.Shared.Text.{Text}
use energy_chain.Scripts.Steps.{
  Act, Receipt, View, approve, swap_exact_eth_for_tokens, swap_exact_tokens_for_eth,
  get_amounts_out, get_balance, balance_of, Node, Script, ◌>>=◌, ◌>>◌, return, send, ask, expect,
  number_at, try_catch, Contracts,
}
use energy_chain.Simulation.{
  Config, Draw, Trade, buy, sell, trade_of, Counts, count_trade, run_phase,
}
use energy_chain.Simulation.Totals.{failures, run_phase-counts}

-- `ethers.parseEther(amount.toString())` of an amount in hundredths.
abbrev pub wei : ℕ → ℕ
wei amount = amount * 10 ^ 16

-- `ethers.MaxUint256`
abbrev pub max_uint256 : ℕ
max_uint256 = 2 ^ 256 - 1

module _ (n : Node) (contracts : Contracts) (deployer : Text) where
  -- What comes before the loop.
  unfoldable pub prepare : Script (Option (List (Option Text)))
  prepare = do
    ask n (get_balance deployer)
    ask n (balance_of contracts.test_usdt deployer)
    send n (approve contracts.test_usdt contracts.router max_uint256)

  -- The body of the `try` for a trade.
  unfoldable pub perform : ℕ → Trade → Script Bool
  perform deadline (buy amount) = do
    amounts ←
        ask n (
          get_amounts_out contracts.router (wei amount) (contracts.test_usdt ∷ contracts.wecy ∷ []))
    expect (number_at 1 amounts)
    send n (
        swap_exact_tokens_for_eth contracts.router (wei amount) 0
          (contracts.test_usdt ∷ contracts.wecy ∷ []) deployer deadline)
    return true
  perform deadline (sell amount) = do
    amounts ←
        ask n (
          get_amounts_out contracts.router (wei amount) (contracts.wecy ∷ contracts.test_usdt ∷ []))
    expect (number_at 1 amounts)
    send n (
        swap_exact_eth_for_tokens contracts.router 0 (contracts.wecy ∷ contracts.test_usdt ∷ [])
          deployer deadline (wei amount))
    return true

  -- A trade, and whether its counter is raised.
  unfoldable pub attempt : ℕ → Trade → Script Bool
  attempt deadline t = try_catch (perform deadline t) (return false)

  -- The inner loop, over what is drawn for each trade and its deadline.
  unfoldable pub run_trades : Config → List (Draw × ℕ) → Counts → Script Counts
  run_trades cfg [] c = return c
  run_trades cfg ((d, deadline) ∷ draws) c = do
    done ← attempt deadline (trade_of cfg d)
    run_trades cfg draws (count_trade (trade_of cfg d) done c)

  -- What a trade asks the router for, and the transaction that it sends.
  abbrev pub quote_of : Trade → View
  quote_of (buy amount) =
      get_amounts_out contracts.router (wei amount) (contracts.test_usdt ∷ contracts.wecy ∷ [])
  quote_of (sell amount) =
      get_amounts_out contracts.router (wei amount) (contracts.wecy ∷ contracts.test_usdt ∷ [])

  abbrev pub swap_of : ℕ → Trade → Act
  swap_of deadline (buy amount) =
      swap_exact_tokens_for_eth contracts.router (wei amount) 0
        (contracts.test_usdt ∷ contracts.wecy ∷ []) deployer deadline
  swap_of deadline (sell amount) =
      swap_exact_eth_for_tokens contracts.router 0 (contracts.wecy ∷ contracts.test_usdt ∷ [])
        deployer deadline (wei amount)

  abbrev quoted : Option (List ℕ) → Bool
  quoted none = false
  quoted (some []) = false
  quoted (some (x ∷ [])) = false
  quoted (some (x ∷ y ∷ ns)) = true

  abbrev confirmed : Option Receipt → Bool
  confirmed none = false
  confirmed (some r) = true

  -- How a trade ends: its transaction is sent if the router gives a second amount, and it is done if
  -- it is sent and its receipt comes.
  abbrev pub ending : ℕ → Trade → List Act → List Act × Bool
  ending deadline t acts =
      if quoted (n.numbers acts (quote_of t))
      then (swap_of deadline t ∷ acts, confirmed (n.receipt acts (swap_of deadline t)))
      else (acts, false)

  -- How the trades of a phase end, each on the transactions of those before it, and the transactions
  -- behind them.
  abbrev pub endings : Config → List (Draw × ℕ) → List Act → List (Draw × Bool)
  endings cfg [] acts = []
  endings cfg ((d, deadline) ∷ draws) acts =
      let e = ending deadline (trade_of cfg d) acts in (d, e.1) ∷ endings cfg draws e.0

  abbrev pub acts_behind : Config → List (Draw × ℕ) → List Act → List Act
  acts_behind cfg [] acts = acts
  acts_behind cfg ((d, deadline) ∷ draws) acts =
      acts_behind cfg draws (ending deadline (trade_of cfg d) acts).0

  length-endings :
      (cfg : Config) (draws : List (Draw × ℕ)) (acts : List Act)
      → length (endings cfg draws acts) ≡ length draws
  length-endings cfg [] acts = refl
  length-endings cfg ((d, deadline) ∷ draws) acts =
      ap suc (length-endings cfg draws (ending deadline (trade_of cfg d) acts).0)

  -- What the body of a trade does with the answers.
  abbrev performed :
      ℕ → Trade → List Act → Option (List ℕ) → Option Receipt → List Act × Option Bool
  performed deadline t acts none r = (acts, none)
  performed deadline t acts (some []) r = (acts, none)
  performed deadline t acts (some (x ∷ [])) r = (acts, none)
  performed deadline t acts (some (x ∷ y ∷ ns)) none = (swap_of deadline t ∷ acts, none)
  performed deadline t acts (some (x ∷ y ∷ ns)) (some r) = (swap_of deadline t ∷ acts, some true)

  perform-eq :
      (deadline : ℕ) (t : Trade) (acts : List Act) (quote : Option (List ℕ)) (r : Option Receipt)
      → n.numbers acts (quote_of t) ≡ quote
      → n.receipt acts (swap_of deadline t) ≡ r
      → perform deadline t acts ≡ performed deadline t acts quote r
  unfolding perform return send ask expect ◌>>=◌
  perform-eq deadline (buy amount) acts none r q e = rw (perform, ◌>>=◌, ask, q) refl
  perform-eq deadline (buy amount) acts (some []) r q e = rw (perform, ◌>>=◌, ask, q) refl
  perform-eq deadline (buy amount) acts (some (x ∷ [])) r q e = rw (perform, ◌>>=◌, ask, q) refl
  perform-eq deadline (buy amount) acts (some (x ∷ y ∷ ns)) none q e =
      rw (perform, ◌>>=◌, ask, q, expect, send, e) refl
  perform-eq deadline (buy amount) acts (some (x ∷ y ∷ ns)) (some r) q e =
      rw (perform, ◌>>=◌, ask, q, expect, send, e) refl
  perform-eq deadline (sell amount) acts none r q e = rw (perform, ◌>>=◌, ask, q) refl
  perform-eq deadline (sell amount) acts (some []) r q e = rw (perform, ◌>>=◌, ask, q) refl
  perform-eq deadline (sell amount) acts (some (x ∷ [])) r q e = rw (perform, ◌>>=◌, ask, q) refl
  perform-eq deadline (sell amount) acts (some (x ∷ y ∷ ns)) none q e =
      rw (perform, ◌>>=◌, ask, q, expect, send, e) refl
  perform-eq deadline (sell amount) acts (some (x ∷ y ∷ ns)) (some r) q e =
      rw (perform, ◌>>=◌, ask, q, expect, send, e) refl

  -- The handler of a trade that throws only gives that it was not done.
  abbrev caught : List Act × Option Bool → List Act × Option Bool
  caught (acts, none) = (acts, some false)
  caught (acts, some b) = (acts, some b)

  caught-cases :
      (o : List Act × Option Bool)
      → elim (o.1) as (λ _. List Act × Option Bool) [
        | none ↦ (o.0, some false)
        | some b ↦ (o.0, some b)
      ]
        ≡ caught o
  caught-cases (acts, none) = refl
  caught-cases (acts, some b) = refl

  performed-ending :
      (deadline : ℕ) (t : Trade) (acts : List Act) (quote : Option (List ℕ)) (r : Option Receipt)
      → caught (performed deadline t acts quote r) ≡ (
          let e : List Act × Bool =
            if quoted quote then (swap_of deadline t ∷ acts, confirmed r) else (acts, false) in
          (e.0, some e.1))
  performed-ending deadline t acts none r = refl
  performed-ending deadline t acts (some []) r = refl
  performed-ending deadline t acts (some (x ∷ [])) r = refl
  performed-ending deadline t acts (some (x ∷ y ∷ ns)) none = refl
  performed-ending deadline t acts (some (x ∷ y ∷ ns)) (some r) = refl

  caught_lem :
      (body : Script Bool) (acts : List Act) (o : List Act × Option Bool)
      → body acts ≡ o
      → try_catch body (return false) acts ≡ caught o
  unfolding try_catch return
  caught_lem body acts o e =
      ap
        (λ o. elim (o.1) as (λ _. List Act × Option Bool) [
          | none ↦ (o.0, some false)
          | some b ↦ (o.0, some b)
        ])
        e
      ∙ caught-cases o

  attempt-eq :
      (deadline : ℕ) (t : Trade) (acts : List Act)
      → attempt deadline t acts ≡ ((ending deadline t acts).0, some (ending deadline t acts).1)
  unfolding attempt
  attempt-eq deadline t acts =
      caught_lem (perform deadline t) acts _ (perform-eq deadline t acts _ _ refl refl)
      ∙ performed-ending deadline t acts _ _

  next-eq :
      {A B : Type 0} (m : Script A) (f : A → Script B) (acts after : List Act) (a : A)
      → m acts ≡ (after, some a)
      → (m >>= f) acts ≡ f a after
  unfolding ◌>>=◌
  next-eq {B = B} m f acts after a e =
      ap (λ o. elim (o.1) as (λ _. List Act × Option B) [ none ↦ (o.0, none) | some x ↦ f x o.0 ]) e

  run_trades-eq :
      (cfg : Config) (draws : List (Draw × ℕ)) (c : Counts) (acts : List Act)
      → run_trades cfg draws c acts
        ≡ (acts_behind cfg draws acts, some (run_phase cfg (endings cfg draws acts) c))
  unfolding run_trades run_phase return
  run_trades-eq cfg [] c acts = refl
  run_trades-eq cfg ((d, deadline) ∷ draws) c acts =
      let t = trade_of cfg d in
      let e = ending deadline t acts in
      next-eq (attempt deadline t) (λ done. run_trades cfg draws (count_trade t done c)) acts e.0
        e.1 (attempt-eq deadline t acts)
      ∙ run_trades-eq cfg draws (count_trade t e.1 c) e.0

-- Whatever the chain answers, the trades of a phase never throw. They send the transactions of the
-- trades for which the router gives a second amount, in their order, and count a trade as done
-- exactly if its transaction is sent and its receipt comes: the counters are those of `run_phase` on
-- what was drawn and on these endings, so that the total grows by the number of trades, and those
-- bought, sold and failed are together as many.
pub run_trades-counts :
    (n : Node) (contracts : Contracts) (deployer : Text) (cfg : Config) (draws : List (Draw × ℕ))
    (c : Counts) (acts : List Act)
    → let ends = endings n contracts deployer cfg draws acts in
      let d = run_phase cfg ends c in
      (run_trades n contracts deployer cfg draws c acts
        ≡ (acts_behind n contracts deployer cfg draws acts, some d))
      × (d.total_trades ≡ c.total_trades + length draws)
      × (d.buy_count + d.sell_count + failures ends ≡ c.buy_count + c.sell_count + length draws)
run_trades-counts n contracts deployer cfg draws c acts =
    let ends = endings n contracts deployer cfg draws acts in
    let (total, sides) = run_phase-counts cfg ends c in
    let long : length ends ≡ length draws = length-endings n contracts deployer cfg draws acts in
    (
      run_trades-eq n contracts deployer cfg draws c acts,
      omega (arith, total, long),
      omega (arith, sides, long),
    )
