-- ===== src/Scripts/Tour.antt =====
-- contracts/scripts/test_all_dex.ts: its tests that send transactions, one function each.
use energy_chain.Shared.{ℕ, ◌/◌, List, [], ◌∷◌}
use energy_chain.Shared.Text.{Text, codes}
use energy_chain.Scripts.Steps.{
  Act, create_token, approve, deposit, withdraw, transfer, add_liquidity_eth, remove_liquidity_eth,
  swap_exact_eth_for_tokens, swap_exact_tokens_for_tokens, swap_exact_tokens_for_eth, balance_of,
  get_balance, get_reserves, get_amounts_out, quote, all_pairs_length, all_tokens_length, get_pair,
  factory_of, weth_of, Node, Script, ◌>>=◌, ◌>>◌, return, send, ask, ask_address, expect, number_at,
  ether, created_address, Contracts,
}

-- The transaction of the fourth test.
abbrev pub get_creation : Text → Act
get_creation token_factory =
    create_token token_factory (codes "Green Energy Token") (codes "GET") 18 (ether 500000)

module _ (n : Node) (contracts : Contracts) (deployer : Text) (deadline : ℕ) where
  -- The first two tests.
  unfoldable pub views : Script Text
  views = do
    ask n (get_balance deployer)
    ask_address n (factory_of contracts.router)
    ask_address n (weth_of contracts.router)
    ask n (quote contracts.router (ether 100) (ether 1000) (ether 500))
    ask n (all_pairs_length contracts.factory)
    ask_address n (get_pair contracts.factory contracts.test_usdt contracts.wecy)

  -- The third test.
  unfoldable pub wrap : Script (List ℕ)
  wrap = do
    send n (deposit contracts.wecy (ether 50))
    ask n (balance_of contracts.wecy deployer)
    send n (withdraw contracts.wecy (ether 25))
    ask n (balance_of contracts.wecy deployer)

  -- The fourth test, which gives the address of the token.
  unfoldable pub create_get : Script Text
  create_get = do
    receipt ← send n (get_creation contracts.token_factory)
    ask n (all_tokens_length contracts.token_factory)
    ask n (balance_of (created_address receipt) deployer)
    return (created_address receipt)

  -- The fifth test.
  unfoldable pub add_get : Text → Script (List ℕ)
  add_get token = do
    send n (approve token contracts.router (ether 50000))
    send n (
        add_liquidity_eth contracts.router token (ether 50000) (ether 50000) (ether 5000) deployer
          deadline (ether 5000))
    pair ← ask_address n (get_pair contracts.factory token contracts.wecy)
    ask n (get_reserves pair)
    ask n (balance_of pair deployer)

  -- The sixth test.
  unfoldable pub buy_get : Text → Script (List ℕ)
  buy_get token = do
    amounts ← ask n (get_amounts_out contracts.router (ether 100) (contracts.wecy ∷ token ∷ []))
    expect (number_at 1 amounts)
    send n (
        swap_exact_eth_for_tokens contracts.router 0 (contracts.wecy ∷ token ∷ []) deployer deadline
          (ether 100))
    ask n (balance_of token deployer)

  -- The seventh test.
  unfoldable pub sell_get : Text → Script (List ℕ)
  sell_get token = do
    send n (approve token contracts.router (ether 500))
    amounts ← ask n (get_amounts_out contracts.router (ether 500) (token ∷ contracts.wecy ∷ []))
    expect (number_at 1 amounts)
    send n (
        swap_exact_tokens_for_eth contracts.router (ether 500) 0 (token ∷ contracts.wecy ∷ [])
          deployer deadline)
    ask n (get_balance deployer)

  -- The eighth test.
  unfoldable pub usdt_to_get : Text → Script (List ℕ)
  usdt_to_get token = do
    send n (approve contracts.test_usdt contracts.router (ether 100))
    amounts ← ask n (
        get_amounts_out contracts.router (ether 100)
          (contracts.test_usdt ∷ contracts.wecy ∷ token ∷ []))
    expect (number_at 2 amounts)
    send n (
        swap_exact_tokens_for_tokens contracts.router (ether 100) 0
          (contracts.test_usdt ∷ contracts.wecy ∷ token ∷ []) deployer deadline)
    ask n (balance_of token deployer)

  -- The ninth test.
  unfoldable pub remove_usdt : Script (List ℕ)
  remove_usdt = do
    pair ← ask_address n (get_pair contracts.factory contracts.test_usdt contracts.wecy)
    balances ← ask n (balance_of pair deployer)
    balance ← expect (number_at 0 balances)
    send n (approve pair contracts.router (balance / 10))
    send n (
        remove_liquidity_eth contracts.router contracts.test_usdt (balance / 10) 0 0 deployer
          deadline)
    ask n (balance_of pair deployer)
    ask n (get_reserves pair)

  -- The tenth test, and the final state that is printed.
  unfoldable pub transfer_get : Text → Script (List ℕ)
  transfer_get token = do
    send n (transfer token (codes "0x1234567890abcdef1234567890abcdef12345678") (ether 100))
    ask n (balance_of token (codes "0x1234567890abcdef1234567890abcdef12345678"))
    ask n (all_pairs_length contracts.factory)
    ask n (all_tokens_length contracts.token_factory)
    ask n (get_balance deployer)
    ask n (balance_of contracts.test_usdt deployer)
    ask n (balance_of token deployer)

  unfoldable pub test_all : Script (List ℕ)
  test_all = do
    views
    wrap
    token ← create_get
    add_get token
    buy_get token
    sell_get token
    usdt_to_get token
    remove_usdt
    transfer_get token
