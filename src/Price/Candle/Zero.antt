-- ===== src/Price/Candle/Zero.antt =====
-- The price of a swap that the indexer has stored.
use energy_chain.Shared.{ℕ, ◌≡◌, refl, ap, ◌∙◌, ◌⊎◌, inl, inr, Bool-cases, if◌then◌else◌}
use energy_chain.Shared.Text.{Text, codes}
use energy_chain.Shared.Number.{to_string, to_string-cons}
use energy_chain.Indexer.Data.{SwapArgs, Log}
use energy_chain.Indexer.Events.{swap_row}
use energy_chain.Price.Float.{Float, IsFinite}
use energy_chain.Price.Candle.{or_text, price_of}

-- A printed number is not empty, so `||` keeps it.
or_text-to_string : (n : ℕ) (b : Text) → or_text (to_string n) b ≡ to_string n
or_text-to_string n b = let (c, s, e) = to_string-cons n in rw e

to_string-zero : to_string 0 ≡ codes "0"
unfolding to_string
to_string-zero = refl

module _ (num : Float) (finite : IsFinite num) where
  price_of_zero_left :
      (b : num.F)
      → (if num.less num.zero_f b then num.over num.zero_f b else num.zero_f) ≡ num.zero_f
  price_of_zero_left b = elim (Bool-cases (num.less num.zero_f b)) [
    | inl positive ↦ rw positive (finite.zero_over b positive)
    | inr other ↦ rw other
  ]

  price_of_zero_right :
      (a : num.F)
      → (if num.less num.zero_f num.zero_f then num.over a num.zero_f else num.zero_f) ≡ num.zero_f
  price_of_zero_right a = rw finite.zero_not_less

  -- The amount that is read for a token whose amount out is a printed zero.
  read_zero :
      (n : ℕ) (b c : Text) → n ≡ 0 → num.ether (or_text (or_text (to_string n) b) c) ≡ num.zero_f
  read_zero n b c e =
      ap num.ether (
        ap (λ t. or_text t c) (or_text-to_string n b)
        ∙ or_text-to_string n c
        ∙ ap to_string e
        ∙ to_string-zero)
      ∙ finite.ether_zero

-- A swap that pays out only one of the two tokens, as the indexer stores it, has the price 0: the
-- other token's amount out is the text "0", which is not falsy, so its amount in is never read.
pub price_of-one_sided :
    (num : Float) (finite : IsFinite num) (pair : Text) (log : Log SwapArgs) (args : SwapArgs)
    (time : ℕ)
    → (args.amount0_out ≡ 0) ⊎ (args.amount1_out ≡ 0)
    → price_of num (swap_row pair log args time) ≡ num.zero_f
unfolding price_of swap_row
price_of-one_sided num finite pair log args time (inl out0) =
    rw (read_zero num finite args.amount0_out (to_string args.amount0_in) (codes "0") out0)
      (price_of_zero_left num finite _)
price_of-one_sided num finite pair log args time (inr out1) =
    rw (read_zero num finite args.amount1_out (to_string args.amount1_in) (codes "0") out1)
      (price_of_zero_right num finite _)
