-- ===== src/Wallet/Pool/View/Sends.antt =====
-- What a gesture on the pool page sends.
use mathlib.Core.List.{Memᴰ}
use energy_chain.Shared.{
  ℕ, ◌+◌, ◌*◌, ◌/◌, ◌≤◌, ◌<◌, ◌≡◌, true, false, List, [], ◌∷◌, Option, some, ◌⊎◌,
}
use energy_chain.Shared.Text.{Text}
use energy_chain.Wallet.Units.{Token}
use energy_chain.Wallet.Display.{Display}
use energy_chain.Wallet.Swap.{or_zero}
use energy_chain.Wallet.Pool.{PoolInfo, Call, approve_router, pool_token_addr, min_amount}
use energy_chain.Wallet.Pool.Liquidity.{offers, Removes}
use energy_chain.Wallet.Pool.Page.{positions}
use energy_chain.Wallet.Pool.View.{Reading, State, Hooks}
use energy_chain.Wallet.Pool.View.Panels.{parsed_a, parsed_b}
use energy_chain.Wallet.Pool.View.Possible.{Possible}

-- The approval of a token that is not native and whose allowance does not cover the amount.
abbrev pub IsApproval : Text → Token → Option ℕ → ℕ → Call → Type 0
IsApproval wecy t allowance parsed c =
    (c ≡ approve_router (pool_token_addr wecy t))
    × (t.is_native ≡ false)
    × (or_zero allowance < parsed)

abbrev pub IsCovered : Token → Option ℕ → ℕ → Type 0
IsCovered t allowance parsed = (t.is_native ≡ true) ⊎ (parsed ≤ or_zero allowance)

-- The two amounts, in one order or the other, each with the least amount that is accepted.
abbrev pub OffersBoth : ℕ → ℕ → Call → Type 0
OffersBoth m n c =
    (offers c ≡ (m, min_amount m) ∷ (n, min_amount n) ∷ [])
    ⊎ (offers c ≡ (n, min_amount n) ∷ (m, min_amount m) ∷ [])

-- An addition of exactly the two amounts, which are positive, each of a token that is native or
-- covered by its allowance, from a connected account.
abbrev pub IsAddition : (d : Display) → Reading d → Hooks d → State → Call → Type 0
IsAddition d x h s c =
    let a = parsed_a d x s.page in
    let b = parsed_b d x s.page in
    (h.is_connected ≡ true)
    × (0 < a)
    × (0 < b)
    × IsCovered s.page.token_a h.allowance_a a
    × IsCovered s.page.token_b h.allowance_b b
    × OffersBoth a b c

-- For a position of the account, what removes exactly the chosen share of it, which is not zero and no
-- more than the account holds: the approval of the pair's tokens, if the router may not take as much,
-- and else the removal, of the pair's tokens and for the account itself, within 1200 seconds.
abbrev pub IsRemoval : {d : Display} → Text → Hooks d → State → Call → Type 0
IsRemoval wecy h s c =
    (pool : PoolInfo) × (allowance : ℕ) × (to : Text) × Memᴰ pool (positions h.pools)
    × (h.lp_allowance pool.pair_addr ≡ some allowance)
    × (h.address ≡ some to)
    × (0 < pool.user_lp * s.remove_percent / 100)
    × (pool.user_lp * s.remove_percent / 100 ≤ pool.user_lp)
    × Removes wecy pool (pool.user_lp * s.remove_percent / 100) allowance to (h.now + 1200) c

-- No transaction waits for its signature or its confirmation.
abbrev pub IsIdle : (d : Display) → Hooks d → Type 0
IsIdle d h = (h.is_pending ≡ false) × (h.is_confirming ≡ false)

abbrev pub IsSound : (d : Display) → Reading d → Text → Hooks d → State → Call → Type 0
IsSound d x wecy h s c =
    IsIdle d h
    × (IsApproval wecy s.page.token_a h.allowance_a (parsed_a d x s.page) c
        ⊎ (IsApproval wecy s.page.token_b h.allowance_b (parsed_b d x s.page) c
            ⊎ (IsAddition d x h s c ⊎ IsRemoval wecy h s c)))
