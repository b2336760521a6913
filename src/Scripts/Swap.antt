-- ===== src/Scripts/Swap.antt =====
-- contracts/scripts/add_liquidity.ts and test_swap.ts: the first pool, and a swap with its fallback.
-- The addresses are those that deploy_dex.ts has written.
use energy_chain.Shared.{ℕ, List, [], ◌∷◌, some}
use energy_chain.Shared.Text.{Text}
use energy_chain.Scripts.Steps.{
  approve, deposit, add_liquidity_eth, swap_exact_eth_for_tokens, swap_exact_tokens_for_tokens,
  balance_of, get_balance, get_reserves, get_amounts_out, all_pairs_length, get_pair, token0_of,
  token1_of, Node, Script, ◌>>=◌, ◌>>◌, send, ask, ask_address, expect, number_at, ether, try_catch,
  Contracts,
}

module _ (n : Node) (contracts : Contracts) (deployer : Text) (deadline : ℕ) where
  unfoldable pub add_liquidity : Script (List ℕ)
  add_liquidity = do
    ask n (get_balance deployer)
    send n (approve contracts.test_usdt contracts.router (ether 100000))
    send n (
        add_liquidity_eth contracts.router contracts.test_usdt (ether 100000) (ether 100000)
          (ether 10000) deployer deadline (ether 10000))
    pair ← ask_address n (get_pair contracts.factory contracts.test_usdt contracts.wecy)
    ask n (get_reserves pair)
    ask n (balance_of pair deployer)
    amounts ←
        ask n
          (get_amounts_out contracts.router (ether 100) (contracts.wecy ∷ contracts.test_usdt ∷ []))
    expect (number_at 1 amounts)
    send n (
        swap_exact_eth_for_tokens contracts.router 0 (contracts.wecy ∷ contracts.test_usdt ∷ [])
          deployer deadline (ether 100))
    ask n (balance_of contracts.test_usdt deployer)
    ask n (get_reserves pair)
    ask n (all_pairs_length contracts.factory)

  -- The body of the outer `try`.
  unfoldable pub swap_ecy : Script (List ℕ)
  swap_ecy = do
    send n (
        swap_exact_eth_for_tokens contracts.router 0 (contracts.wecy ∷ contracts.test_usdt ∷ [])
          deployer deadline (ether 10))
    ask n (balance_of contracts.test_usdt deployer)

  -- The body of the inner `try`.
  unfoldable pub swap_wecy : Script (List ℕ)
  swap_wecy = do
    send n (
        swap_exact_tokens_for_tokens contracts.router (ether 10) 0
          (contracts.wecy ∷ contracts.test_usdt ∷ []) deployer deadline)
    ask n (balance_of contracts.test_usdt deployer)

  -- The outer `catch`.
  unfoldable pub wrap_and_swap : Script (List ℕ)
  wrap_and_swap = do
    send n (deposit contracts.wecy (ether 10))
    ask n (balance_of contracts.wecy deployer)
    send n (approve contracts.wecy contracts.router (ether 10))
    try_catch swap_wecy (λ h. (h, some []))

  unfoldable pub test_swap : Script (List ℕ)
  test_swap = do
    pair ← ask_address n (get_pair contracts.factory contracts.test_usdt contracts.wecy)
    ask_address n (token0_of pair)
    ask_address n (token1_of pair)
    ask n (get_reserves pair)
    amounts ←
        ask n
          (get_amounts_out contracts.router (ether 10) (contracts.wecy ∷ contracts.test_usdt ∷ []))
    expect (number_at 1 amounts)
    try_catch swap_ecy wrap_and_swap
    ask n (get_reserves pair)
