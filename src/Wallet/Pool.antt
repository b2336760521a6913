-- ===== src/Wallet/Pool.antt =====
-- `PoolPage` of dex-frontend/src/pages/PoolPage.tsx without its markup: the pools of
-- the factory, and the transactions that add and remove liquidity.
pub mod Liquidity
pub mod Listing
pub mod Amounts
pub mod Page
pub mod View
use energy_chain.Shared.{
  ℕ, zero, suc, ◌+◌, ◌*◌, ◌/◌, Bool, true, false, not, ◌&&◌, ◌||◌, List, [], ◌∷◌, Option, none,
  some, ltb, leb, ◌==◌, if◌then◌else◌,
}
use energy_chain.Shared.Text.{Text, codes, text_eq, lower}
use energy_chain.Wallet.Units.{Units, Token, is_positive, parsed_amount}

-- `PoolInfo`
pub record PoolInfo : Type 0 where
  pub pair_addr : Text
  pub token0_addr : Text
  pub token1_addr : Text
  pub token0_symbol : Text
  pub token1_symbol : Text
  pub reserve0 : ℕ
  pub reserve1 : ℕ
  pub total_supply : ℕ
  pub user_lp : ℕ

-- What the factory, the pairs and the tokens answer; `none` is an exception.
pub record Chain : Type 0 where
  pub all_pairs_length : Option ℕ
  pub all_pairs : ℕ → Option Text
  pub token0 : Text → Option Text
  pub token1 : Text → Option Text
  pub get_reserves : Text → Option (ℕ × ℕ)
  pub total_supply : Text → Option ℕ
  pub balance_of : Text → Text → Option ℕ
  pub symbol : Text → Option Text

infixl 5 ◌>>=◌
abbrev pub ◌>>=◌ : {A B : Type 0} → Option A → (A → Option B) → Option B
none >>= f = none
some a >>= f = f a

-- `try { … } catch {}` around a symbol that starts as "?"
abbrev pub symbol_or : Option Text → Text
symbol_or none = codes "?"
symbol_or (some s) = s

-- The liquidity tokens of the account, and 0 without one.
abbrev pub lp_of : Chain → Text → Option Text → Option ℕ
lp_of c pair none = some 0
lp_of c pair (some account) = c.balance_of pair account

-- One round of the loop of `fetchPools`.
unfoldable pub fetch_pool : Chain → Option Text → ℕ → Option PoolInfo
fetch_pool c account i = do
  pair ← c.all_pairs i
  t0 ← c.token0 pair
  t1 ← c.token1 pair
  reserves ← c.get_reserves pair
  supply ← c.total_supply pair
  lp ← lp_of c pair account
  some (record {
    pair_addr = pair;
    token0_addr = t0;
    token1_addr = t1;
    token0_symbol = symbol_or (c.symbol t0);
    token1_symbol = symbol_or (c.symbol t1);
    reserve0 = reserves.0;
    reserve1 = reserves.1;
    total_supply = supply;
    user_lp = lp;
  })

-- The loop of `fetchPools`, from the pair `i` on, for `n` pairs.
unfoldable pub fetch_from : Chain → Option Text → ℕ → ℕ → Option (List PoolInfo)
fetch_from c account i zero = some []
fetch_from c account i (suc n) = do
  pool ← fetch_pool c account i
  pools ← fetch_from c account (suc i) n
  some (pool ∷ pools)

-- `fetchPools`: the pools that are shown afterwards. An exception leaves the ones from before.
unfoldable pub fetch_pools : Chain → Option Text → List PoolInfo → List PoolInfo
fetch_pools c account shown = elim (c.all_pairs_length >>= fetch_from c account 0) [
  | none ↦ shown
  | some pools ↦ pools
]

-- The calls of `writeContract`.
pub data Call : Type 0 where
  approve_router : (token : Text) → Call
  add_liquidity_eth :
      (token : Text) (desired min min_eth : ℕ) (to : Text) (deadline value : ℕ) → Call
  add_liquidity :
      (token_a token_b : Text) (desired_a desired_b min_a min_b : ℕ) (to : Text) (deadline : ℕ)
      → Call
  remove_liquidity_eth :
      (token : Text) (liquidity min min_eth : ℕ) (to : Text) (deadline : ℕ) → Call
  remove_liquidity :
      (token_a token_b : Text) (liquidity min_a min_b : ℕ) (to : Text) (deadline : ℕ) → Call

-- `minA` and `minB`
unfoldable pub min_amount : ℕ → ℕ
min_amount parsed = parsed * 1 / 100

unfoldable pub pool_token_addr : Text → Token → Text
pool_token_addr wecy t = if t.is_native then wecy else t.address

-- `handleAddLiquidity` on the two parsed amounts, at a time in seconds.
unfoldable pub handle_add_liquidity : Text → Option Text → Token → Token → ℕ → ℕ → ℕ → Option Call
handle_add_liquidity wecy none token_a token_b parsed_a parsed_b now = none
handle_add_liquidity wecy (some to) token_a token_b parsed_a parsed_b now =
    let deadline = now + 1200 in
    let a = pool_token_addr wecy token_a in
    let b = pool_token_addr wecy token_b in
    if (parsed_a == 0) || (parsed_b == 0)
    then none
    else if token_a.is_native
    then some (
        add_liquidity_eth b parsed_b (min_amount parsed_b) (min_amount parsed_a) to deadline
          parsed_a)
    else if token_b.is_native
    then some (
        add_liquidity_eth a parsed_a (min_amount parsed_a) (min_amount parsed_b) to deadline
          parsed_b)
    else some (
        add_liquidity a b parsed_a parsed_b (min_amount parsed_a) (min_amount parsed_b) to deadline)

-- The share of the account's liquidity that is removed.
unfoldable pub lp_to_remove : PoolInfo → ℕ → ℕ
lp_to_remove pool percent = pool.user_lp * percent / 100

-- `handleRemoveLiquidity`, with the router's allowance on the pair's tokens; `none` where the query
-- of the allowance throws.
unfoldable pub handle_remove_liquidity :
    Text → Option Text → PoolInfo → ℕ → Option ℕ → ℕ → Option Call
handle_remove_liquidity wecy none pool percent allowance now = none
handle_remove_liquidity wecy (some to) pool percent none now = none
handle_remove_liquidity wecy (some to) pool percent (some allowance) now =
    let lp = lp_to_remove pool percent in
    let deadline = now + 1200 in
    let is0 = text_eq (lower pool.token0_addr) (lower wecy) in
    let is1 = text_eq (lower pool.token1_addr) (lower wecy) in
    if lp == 0
    then none
    else if ltb allowance lp
    then some (approve_router pool.pair_addr)
    else if is0 || is1
    then some (
        remove_liquidity_eth (if is0 then pool.token1_addr else pool.token0_addr) lp 0 0 to
          deadline)
    else some (remove_liquidity pool.token0_addr pool.token1_addr lp 0 0 to deadline)

pub data Action : Type 0 where
  connect enter approve_a approve_b add : Action

unfoldable pub needs_approval : Token → ℕ → Option ℕ → Bool
needs_approval t parsed none = not t.is_native && ltb 0 parsed && ltb 0 parsed
needs_approval t parsed (some allowance) = not t.is_native && ltb 0 parsed && ltb allowance parsed

-- What the button of the form does.
unfoldable pub action : Bool → Token → Token → ℕ → ℕ → Option ℕ → Option ℕ → Action
action connected token_a token_b parsed_a parsed_b allowance_a allowance_b =
    if not connected
    then connect
    else if not (ltb 0 parsed_a && ltb 0 parsed_b)
    then enter
    else if needs_approval token_a parsed_a allowance_a
    then approve_a
    else if needs_approval token_b parsed_b allowance_b
    then approve_b
    else add
