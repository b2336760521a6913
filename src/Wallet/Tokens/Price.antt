-- ===== src/Wallet/Tokens/Price.antt =====
-- The price of the native token and of its wrapped form.
use energy_chain.Shared.{◌≡◌, refl, ap, ◌∙◌, true, List, [], ◌∷◌, foldl, All, Bool-cases, inl, inr}
use energy_chain.Shared.Text.{Text, codes, text_eq, text_eq_refl, lower}
use energy_chain.Wallet.Display.{Display}
use energy_chain.Wallet.Tokens.{PairData, price_step, token_price, ecy_step, ecy_price}

module _ (d : Display) (wecy : Text) where
  -- Both reserves are above zero.
  abbrev pub IsFunded : PairData → Type 0
  IsFunded p =
      (d.less d.zero_f (d.units p.r0 18) ≡ true) × (d.less d.zero_f (d.units p.r1 18) ≡ true)

  step_eq :
      (shown : Text) (p : PairData)
      → IsFunded p
      → price_step d wecy (lower wecy) 18 shown p ≡ ecy_step d wecy shown p
  unfolding price_step ecy_step
  step_eq shown p (full0, full1) = elim (Bool-cases (text_eq (lower p.t0) (lower wecy))) [
    | inl is_t0 ↦ rw (is_t0) (rw (full0, full1, text_eq_refl (lower wecy)) refl)
    | inr not_t0 ↦ elim (Bool-cases (text_eq (lower p.t1) (lower wecy))) [
      | inl is_t1 ↦ rw (not_t0, is_t1) (rw (full0, full1, text_eq_refl (lower wecy)) refl)
      | inr not_t1 ↦ rw (not_t0, not_t1) refl
    ]
  ]

  fold_eq :
      (shown : Text) (pairs : List PairData)
      → All IsFunded pairs
      → foldl (price_step d wecy (lower wecy) 18) shown pairs ≡ foldl (ecy_step d wecy) shown pairs
  fold_eq shown [] h = refl
  fold_eq shown (p ∷ pairs) (h, k) =
      ap (λ s. foldl (price_step d wecy (lower wecy) 18) s pairs) (step_eq shown p h)
      ∙ fold_eq (ecy_step d wecy shown p) pairs k

-- Where every pair has both reserves above zero, the page shows the same price for the native token
-- and for the wrapped token with 18 decimals.
pub token_price-eq-ecy_price :
    (d : Display) (wecy : Text) (pairs : List PairData)
    → All (IsFunded d wecy) pairs
    → token_price d wecy (lower wecy) 18 pairs ≡ ecy_price d wecy pairs
unfolding token_price ecy_price
token_price-eq-ecy_price d wecy pairs h = fold_eq d wecy (codes "—") pairs h
