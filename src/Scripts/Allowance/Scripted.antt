-- ===== src/Scripts/Allowance/Scripted.antt =====
-- The scripts of contracts/scripts take no more from the sender than the router is allowed to.
use energy_chain.Shared.{ℕ, ◌≡◌, refl, List, ◌∷◌, Option, none}
use energy_chain.Shared.Text.{Text}
use energy_chain.Scripts.Steps.{
  Act, approve, get_pair, View, AddressView, Node, Script, ◌>>=◌, Receipt, send, ask, ask_address,
  expect, ether, Contracts,
}
use energy_chain.Scripts.Swap.{add_liquidity, swap_ecy, swap_wecy, wrap_and_swap, test_swap}
use energy_chain.Scripts.Tour.{
  views, wrap, create_get, add_get, buy_get, sell_get, usdt_to_get, remove_usdt, transfer_get,
  test_all,
}
use energy_chain.Scripts.Allowance.{pulled, IsCovered}
use energy_chain.Scripts.Allowance.Kept.{
  Keeps, bind-Keeps, return-Keeps, try_catch-Keeps, ask-Keeps, ask_address-Keeps, send-Keeps,
  ask-Allows, expect-Allows, Answers, ask_under, expect_under, ask_address_under, remove_under,
  pull_Allows, Allows, approve_Allows,
}

module _ (n : Node) (c : Contracts) {B : Type 0} where
  then_ask :
      (view : View) (f : List ℕ → Script B)
      → ((ns : List ℕ) → Keeps n c (IsCovered n c) (f ns))
      → Keeps n c (IsCovered n c) (ask n view >>= f)
  then_ask view f = bind-Keeps n c (ask n view) f (ask-Keeps n c view)

  then_ask_address :
      (view : AddressView) (f : Text → Script B)
      → ((t : Text) → Keeps n c (IsCovered n c) (f t))
      → Keeps n c (IsCovered n c) (ask_address n view >>= f)
  then_ask_address view f = bind-Keeps n c (ask_address n view) f (ask_address-Keeps n c view)

  then_send :
      (act : Act) (f : Receipt → Script B)
      → ((acts : List Act) → pulled n c acts act ≡ none)
      → ((r : Receipt) → Keeps n c (IsCovered n c) (f r))
      → Keeps n c (IsCovered n c) (send n act >>= f)
  then_send act f e = bind-Keeps n c (send n act) f (send-Keeps n c act e)

  then_expect :
      (x : Option ℕ) (f : ℕ → Script B)
      → ((k : ℕ) → Keeps n c (IsCovered n c) (f k))
      → Keeps n c (IsCovered n c) (expect x >>= f)
  then_expect = expect_under n c (IsCovered n c) (λ acts h. h)

module _ (n : Node) (c : Contracts) (deployer : Text) (deadline : ℕ) where
  add_liquidity-Keeps : Keeps n c (IsCovered n c) (add_liquidity n c deployer deadline)
  unfolding add_liquidity
  add_liquidity-Keeps = then_ask n c _ _ λ _. approve_Allows n c _ _ _ _ λ _.
      pull_Allows n c _ _ _ (λ _. refl)
        λ _. then_ask_address n c _ _ λ pair. then_ask n c _ _ λ _. then_ask n c _ _ λ _.
          then_ask n c _ _ λ amounts. then_expect n c _ _ λ _.
            then_send n c _ _ (λ _. refl)
              λ _. then_ask n c _ _ λ _. then_ask n c _ _ λ _. ask-Keeps n c _

  swap_ecy-Keeps : Keeps n c (IsCovered n c) (swap_ecy n c deployer deadline)
  unfolding swap_ecy
  swap_ecy-Keeps = then_send n c _ _ (λ _. refl) λ _. ask-Keeps n c _

  swap_wecy-Allows :
      Keeps n c
        (Allows n c (record { spender = c.router; token = c.wecy; amount = ether 10 }))
        (swap_wecy n c deployer deadline)
  unfolding swap_wecy
  swap_wecy-Allows = pull_Allows n c _ _ _ (λ _. refl) λ _. ask-Keeps n c _

  wrap_and_swap-Keeps : Keeps n c (IsCovered n c) (wrap_and_swap n c deployer deadline)
  unfolding wrap_and_swap
  wrap_and_swap-Keeps =
      then_send n c _ _ (λ _. refl)
        λ _. then_ask n c _ _ λ _.
          approve_Allows n c _ _ _ _
            λ _. try_catch-Keeps n c _ _ _ swap_wecy-Allows (record { keeps = λ acts h. h })

  test_swap-Keeps : Keeps n c (IsCovered n c) (test_swap n c deployer deadline)
  unfolding test_swap
  test_swap-Keeps = then_ask_address n c _ _ λ pair. then_ask_address n c _ _ λ _.
      then_ask_address n c _ _ λ _. then_ask n c _ _ λ _. then_ask n c _ _ λ amounts.
        then_expect n c _ _ λ _.
          bind-Keeps n c _ _
            (try_catch-Keeps n c (IsCovered n c) _ _ swap_ecy-Keeps wrap_and_swap-Keeps)
            λ _. ask-Keeps n c _

  views-Keeps : Keeps n c (IsCovered n c) (views n c deployer deadline)
  unfolding views
  views-Keeps = then_ask n c _ _ λ _. then_ask_address n c _ _ λ _.
      then_ask_address n c _ _
        λ _. then_ask n c _ _ λ _. then_ask n c _ _ λ _. ask_address-Keeps n c _

  wrap-Keeps : Keeps n c (IsCovered n c) (wrap n c deployer deadline)
  unfolding wrap
  wrap-Keeps =
      then_send n c _ _ (λ _. refl)
        λ _. then_ask n c _ _ λ _. then_send n c _ _ (λ _. refl) λ _. ask-Keeps n c _

  create_get-Keeps : Keeps n c (IsCovered n c) (create_get n c deployer deadline)
  unfolding create_get
  create_get-Keeps =
      then_send n c _ _ (λ _. refl)
        λ _. then_ask n c _ _ λ _. then_ask n c _ _ λ _. return-Keeps n c _

  add_get-Keeps : (token : Text) → Keeps n c (IsCovered n c) (add_get n c deployer deadline token)
  unfolding add_get
  add_get-Keeps token = approve_Allows n c _ _ _ _ λ _.
      pull_Allows n c _ _ _ (λ _. refl)
        λ _. then_ask_address n c _ _ λ pair. then_ask n c _ _ λ _. ask-Keeps n c _

  buy_get-Keeps : (token : Text) → Keeps n c (IsCovered n c) (buy_get n c deployer deadline token)
  unfolding buy_get
  buy_get-Keeps token =
      then_ask n c _ _
        λ amounts. then_expect n c _ _ λ _. then_send n c _ _ (λ _. refl) λ _. ask-Keeps n c _

  sell_get-Keeps : (token : Text) → Keeps n c (IsCovered n c) (sell_get n c deployer deadline token)
  unfolding sell_get
  sell_get-Keeps token = approve_Allows n c _ _ _ _ λ _.
      ask-Allows n c _ _ _ λ amounts.
        expect-Allows n c _ _ _ λ _. pull_Allows n c _ _ _ (λ _. refl) λ _. ask-Keeps n c _

  usdt_to_get-Keeps :
      (token : Text) → Keeps n c (IsCovered n c) (usdt_to_get n c deployer deadline token)
  unfolding usdt_to_get
  usdt_to_get-Keeps token = approve_Allows n c _ _ _ _ λ _.
      ask-Allows n c _ _ _ λ amounts.
        expect-Allows n c _ _ _ λ _. pull_Allows n c _ _ _ (λ _. refl) λ _. ask-Keeps n c _

  transfer_get-Keeps :
      (token : Text) → Keeps n c (IsCovered n c) (transfer_get n c deployer deadline token)
  unfolding transfer_get
  transfer_get-Keeps token =
      then_send n c _ _ (λ _. refl)
        λ _. then_ask n c _ _ λ _.
          then_ask n c _ _
            λ _. then_ask n c _ _ λ _. then_ask n c _ _ λ _. then_ask n c _ _ λ _. ask-Keeps n c _

  -- An approval does not change what the chain gives as the address of a pair.
  module _
      (steady : (acts : List Act) (token spender : Text) (amount : ℕ) (view : AddressView)
        → n.address (approve token spender amount ∷ acts) view ≡ n.address acts view) where
    remove_usdt-Keeps : Keeps n c (IsCovered n c) (remove_usdt n c deployer deadline)
    unfolding remove_usdt
    remove_usdt-Keeps = ask_address_under n c _ _ λ pair.
        let view = get_pair c.factory c.test_usdt c.wecy in
        let weak = λ (acts : List Act) (h : Answers n c view pair acts). h.covered in
        ask_under n c _ weak _ _ λ balances. expect_under n c _ weak _ _ λ balance.
          remove_under n c steady pair _ _ _ _ _ _ _ _ λ _. then_ask n c _ _ λ _. ask-Keeps n c _

    test_all-Keeps : Keeps n c (IsCovered n c) (test_all n c deployer deadline)
    unfolding test_all
    test_all-Keeps = bind-Keeps n c _ _ views-Keeps λ _. bind-Keeps n c _ _ wrap-Keeps λ _.
        bind-Keeps n c _ _ create_get-Keeps λ token. bind-Keeps n c _ _ (add_get-Keeps token) λ _.
          bind-Keeps n c _ _ (buy_get-Keeps token) λ _.
            bind-Keeps n c _ _ (sell_get-Keeps token) λ _.
              bind-Keeps n c _ _ (usdt_to_get-Keeps token)
                λ _. bind-Keeps n c _ _ remove_usdt-Keeps λ _. transfer_get-Keeps token

-- Let an approval not change the addresses that the chain gives. Then, whatever it answers, and wherever
-- a script throws: of its transactions, behind covered ones, none lets the router take more of a token
-- than the approvals before it leave, in the script that adds the first pool, in the swap with its
-- fallback, and in the test of all contracts. Where liquidity is removed, the token is the pair that the
-- factory has for the two tokens.
pub scripts-IsCovered :
    (n : Node) (c : Contracts) (deployer : Text) (deadline : ℕ) (acts : List Act)
    → ((before : List Act) (token spender : Text) (amount : ℕ) (view : AddressView)
        → n.address (approve token spender amount ∷ before) view ≡ n.address before view)
    → IsCovered n c acts
    → IsCovered n c ((add_liquidity n c deployer deadline acts).0)
      × IsCovered n c ((test_swap n c deployer deadline acts).0)
      × IsCovered n c ((test_all n c deployer deadline acts).0)
scripts-IsCovered n c deployer deadline acts steady h = (
  (add_liquidity-Keeps n c deployer deadline).keeps acts h,
  (test_swap-Keeps n c deployer deadline).keeps acts h,
  (test_all-Keeps n c deployer deadline steady).keeps acts h,
)
