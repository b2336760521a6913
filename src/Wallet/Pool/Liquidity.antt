-- ===== src/Wallet/Pool/Liquidity.antt =====
-- What the page sends to add and to remove liquidity.
use energy_chain.Shared.{
  ℕ, ◌+◌, ◌*◌, ◌≤◌, ◌<◌, ◌/◌, ◌≡◌, ◌≢◌, refl, List, [], ◌∷◌, some, arith, inl, inr, ◌⊎◌, Bool-cases,
}
use energy_chain.Shared.Text.{Text, lower, text_eq_iff}
use energy_chain.Wallet.Units.{Token}
use energy_chain.Wallet.Pool.{
  PoolInfo, Call, approve_router, add_liquidity_eth, add_liquidity, remove_liquidity_eth,
  remove_liquidity, min_amount, pool_token_addr, handle_add_liquidity, lp_to_remove,
  handle_remove_liquidity,
}

-- The pairs of an amount that is offered and the least amount of it that is accepted.
abbrev pub offers : Call → List (ℕ × ℕ)
offers (approve_router token) = []
offers (add_liquidity_eth token desired min min_eth to deadline value) =
    (desired, min) ∷ (value, min_eth) ∷ []
offers (add_liquidity a b desired_a desired_b min_a min_b to deadline) =
    (desired_a, min_a) ∷ (desired_b, min_b) ∷ []
offers (remove_liquidity_eth token liquidity min min_eth to deadline) = []
offers (remove_liquidity a b liquidity min_a min_b to deadline) = []

-- A slippage of at most 5 percent: at least 95 percent of the offer is to be used.
abbrev pub WithinFive : ℕ × ℕ → Type 0
WithinFive (offer, least) = 95 * offer ≤ 100 * least

-- The offer of a parsed amount.
abbrev offer : ℕ → ℕ × ℕ
offer parsed = (parsed, min_amount parsed)

offer-loose : (n : ℕ) → n ≢ 0 → ¬ (WithinFive (offer n))
unfolding min_amount
offer-loose n h = omega arith

-- With an account and two amounts that are not zero, liquidity is added: the call offers exactly the
-- two parsed amounts, in one order or the other, and for neither of them does the least amount that
-- it accepts keep a slippage of 5 percent.
pub handle_add_liquidity-loose :
    (wecy to : Text) (token_a token_b : Token) (parsed_a parsed_b now : ℕ)
    → parsed_a ≢ 0
    → parsed_b ≢ 0
    → (c : Call) × (handle_add_liquidity wecy (some to) token_a token_b parsed_a parsed_b now
        ≡ some c)
      × ((offers c ≡ offer parsed_a ∷ offer parsed_b ∷ [])
          ⊎ (offers c ≡ offer parsed_b ∷ offer parsed_a ∷ []))
      × ¬ (WithinFive (offer parsed_a))
      × ¬ (WithinFive (offer parsed_b))
unfolding handle_add_liquidity
handle_add_liquidity-loose wecy to token_a token_b parsed_a parsed_b now ha hb =
    let a = pool_token_addr wecy token_a in
    let b = pool_token_addr wecy token_b in
    let ma = min_amount parsed_a in
    let mb = min_amount parsed_b in
    let loose_a = offer-loose parsed_a ha in
    let loose_b = offer-loose parsed_b hb in
    elim (Bool-cases token_a.is_native) [
      | inl native ↦ (
        add_liquidity_eth b parsed_b mb ma to (now + 1200) parsed_a,
        ground arith,
        inr refl,
        loose_a,
        loose_b,
      )
      | inr plain ↦ elim (Bool-cases token_b.is_native) [
        | inl native ↦ (
          add_liquidity_eth a parsed_a ma mb to (now + 1200) parsed_b,
          ground arith,
          inl refl,
          loose_a,
          loose_b,
        )
        | inr other ↦ (
          add_liquidity a b parsed_a parsed_b ma mb to (now + 1200),
          ground arith,
          inl refl,
          loose_a,
          loose_b,
        )
      ]
    ]

lp_to_remove-le :
    (pool : PoolInfo) (percent : ℕ) → percent ≤ 100 → lp_to_remove pool percent ≤ pool.user_lp
unfolding lp_to_remove
lp_to_remove-le pool percent h = grind arith

-- The removal of an amount of the pair's tokens in favour of an account: with the native token, if a
-- token of the pair is the wrapped one, and then of the other one.
abbrev pub TakesOut :
    (wecy : Text) → PoolInfo → (lp : ℕ) → (to : Text) → (deadline : ℕ) → Call → Type 0
TakesOut wecy pool lp to deadline c =
    ((lower pool.token0_addr ≡ lower wecy)
      × (c ≡ remove_liquidity_eth pool.token1_addr lp 0 0 to deadline))
    ⊎ (((lower pool.token0_addr ≢ lower wecy)
          × (lower pool.token1_addr ≡ lower wecy)
          × (c ≡ remove_liquidity_eth pool.token0_addr lp 0 0 to deadline))
        ⊎ ((lower pool.token0_addr ≢ lower wecy)
            × (lower pool.token1_addr ≢ lower wecy)
            × (c ≡ remove_liquidity pool.token0_addr pool.token1_addr lp 0 0 to deadline)))

-- What is sent to remove some liquidity: the approval of the pair's tokens, if the router may not take
-- as much, and else the removal.
abbrev pub Removes :
    (wecy : Text) → PoolInfo → (lp allowance : ℕ) → (to : Text) → (deadline : ℕ) → Call → Type 0
Removes wecy pool lp allowance to deadline c =
    ((allowance < lp) × (c ≡ approve_router pool.pair_addr))
    ⊎ ((lp ≤ allowance) × TakesOut wecy pool lp to deadline c)

-- For a share of at most 100 percent, what is sent is for exactly that share of the pair's tokens that
-- the account holds, which is not zero.
pub handle_remove_liquidity-Removes :
    (wecy to : Text) (pool : PoolInfo) (percent allowance now : ℕ) (c : Call)
    → percent ≤ 100
    → handle_remove_liquidity wecy (some to) pool percent (some allowance) now ≡ some c
    → let lp = pool.user_lp * percent / 100 in
      (0 < lp) × (lp ≤ pool.user_lp) × Removes wecy pool lp allowance to (now + 1200) c
unfolding handle_remove_liquidity lp_to_remove
handle_remove_liquidity-Removes wecy to pool percent allowance now c h e =
    let held = lp_to_remove-le pool percent h in
    let same0 = text_eq_iff (lower pool.token0_addr) (lower wecy) in
    let same1 = text_eq_iff (lower pool.token1_addr) (lower wecy) in
    ground (arith, held, same0, same1)
