-- ===== src/Wallet/Swap/Amounts.antt =====
-- What a swap that is sent asks for.
use energy_chain.Shared.{
  ℕ, zero, suc, ◌+◌, ◌-◌, ◌*◌, ◌/◌, ◌≤◌, ◌<◌, ◌≡◌, ◌≢◌, refl, ap, List, Option, none, some, ltb,
  if◌then◌else◌, arith, inl, inr, Bool-cases,
}
use energy_chain.Shared.Int.{ℤ, pos, negsuc, sub_ℕ}
use energy_chain.Shared.Text.{Text}
use energy_chain.Wallet.Units.{Units}
use energy_chain.Wallet.Swap.{
  approve_router, mul_div, Form, Account, or_zero, Call, swap_exact_eth_for_tokens,
  swap_exact_tokens_for_eth, swap_exact_tokens_for_tokens, path, amount_in_units, min_received,
  handle_swap,
}

div_bounds : (n : ℕ) → (n / 10000 * 10000 ≤ n) × (n < (n / 10000 + 1) * 10000)
div_bounds n = omega arith

share-le : (out f : ℕ) → f ≤ 10000 → out * f / 10000 ≤ out
share-le out f h = grind arith

least_pos :
    (out f : ℕ) → (if ltb 0 out then pos (out * f / 10000) else pos 0) ≡ pos (out * f / 10000)
least_pos zero f = ap pos (omega arith)
least_pos (suc out) f = ground arith

quotient-pos : (out f : ℕ) → 10000 ≤ out → 1 ≤ out * suc f / 10000
quotient-pos out f h = grind arith

least_neg :
    (out f : ℕ)
    → 10000 ≤ out
    → (if ltb 0 out then sub_ℕ 0 (out * suc f / 10000) else pos 0)
      ≡ negsuc (out * suc f / 10000 - 1)
least_neg out f h = ground (arith, quotient-pos out f h)

-- Let the slippage leave between 0 and 10000 of the 10000 parts. Then the least amount that a swap
-- accepts is that share of the quoted amount, rounded down, and never above the quote.
min_received_bounds :
    (u : Units) (slippage : u.F) (a : Account) (f : ℕ)
    → u.basis_points slippage ≡ pos f
    → f ≤ 10000
    → (m : ℕ) × (min_received u slippage a ≡ pos m)
      × (m ≤ or_zero a.amount_out)
      × (m * 10000 ≤ or_zero a.amount_out * f)
      × (or_zero a.amount_out * f < (m + 1) * 10000)
unfolding min_received mul_div
min_received_bounds u slippage a f e h =
    let out = or_zero a.amount_out in
    (
      out * f / 10000,
      rw e (least_pos out f),
      share-le out f h,
      (div_bounds (out * f)).0,
      (div_bounds (out * f)).1,
    )

-- With a slippage above 100 percent and a quote of at least 10000 the least amount is negative.
pub min_received-negative :
    (u : Units) (slippage : u.F) (a : Account) (f : ℕ)
    → u.basis_points slippage ≡ negsuc f
    → 10000 ≤ or_zero a.amount_out
    → (m : ℕ) × (min_received u slippage a ≡ negsuc m)
unfolding min_received mul_div
min_received-negative u slippage a f e h =
    (or_zero a.amount_out * suc f / 10000 - 1, rw e (least_neg (or_zero a.amount_out) f h))

-- The amount, the least amount out, the path, the recipient and the deadline of a call.
abbrev pub terms : Call → Option (ℕ × ℤ × List Text × Text × ℕ)
terms (approve_router token) = none
terms (swap_exact_eth_for_tokens value min path to deadline) = some (value, min, path, to, deadline)
terms (swap_exact_tokens_for_eth amount min path to deadline) =
    some (amount, min, path, to, deadline)
terms (swap_exact_tokens_for_tokens amount min path to deadline) =
    some (amount, min, path, to, deadline)

-- With an account and an amount that is not zero a swap is sent. Whichever of the three
-- functions is called, it spends the parsed amount for at least the least amount, on the path of the
-- two tokens, to the account itself, within 1200 seconds.
pub handle_swap-terms :
    (u : Units) (wecy to : Text) (slippage : u.F) (now : ℕ) (f : Form) (a : Account)
    → a.address ≡ some to
    → amount_in_units u f ≢ 0
    → (c : Call) × (handle_swap u wecy slippage now f a ≡ some c)
      × (terms c
          ≡ some (amount_in_units u f, min_received u slippage a, path wecy f, to, now + 1200))
unfolding handle_swap
handle_swap-terms u wecy to slippage now f a account positive =
    elim (Bool-cases f.token_in.is_native) [
      | inl native ↦ (
        swap_exact_eth_for_tokens (amount_in_units u f) (min_received u slippage a) (path wecy f) to
            (now + 1200),
        ground arith,
        refl,
      )
      | inr plain ↦ elim (Bool-cases f.token_out.is_native) [
        | inl native ↦ (
          swap_exact_tokens_for_eth (amount_in_units u f) (min_received u slippage a) (path wecy f)
              to (now + 1200),
          ground arith,
          refl,
        )
        | inr other ↦ (
          swap_exact_tokens_for_tokens (amount_in_units u f) (min_received u slippage a)
              (path wecy f) to (now + 1200),
          ground arith,
          refl,
        )
      ]
    ]
