-- ===== src/Api/Users.antt =====
-- Which of the rows that the indexer stores the routes by address can find.
use energy_chain.Shared.{ℕ, ◌≡◌, ◌≢◌, ap, sym, ◌∙◌, true, false, Option, Bool-cases, inl, inr}
use energy_chain.Shared.Text.{Text, text_eq, text_eq_iff, text_eq_refl, lower, lower_idem}
use energy_chain.Indexer.Data.{Log, SwapArgs}
use energy_chain.Indexer.Events.{swap_row}
use energy_chain.Api.{user_txs, pair_swaps}

text_eq-lower : (a b : Text) → lower a ≢ a → text_eq a (lower b) ≡ false
text_eq-lower a b h = elim (Bool-cases (text_eq a (lower b))) [
  | inl same ↦
      let e = (text_eq_iff a (lower b)).0 same in absurd (h (ap lower e ∙ (lower_idem b ∙ sym e)))
  | inr other ↦ other
]

-- A swap whose sender and recipient are stored with a capital letter, as the checksum of an address
-- has them, is in the transactions of no user, however the address is written in the request.
pub user_txs-misses :
    (pair : Text) (log : Log SwapArgs) (args : SwapArgs) (time : ℕ) (address : Text)
    (limit : Option Text)
    → lower args.sender ≢ args.sender
    → lower args.to ≢ args.to
    → (user_txs address limit).keep (swap_row pair log args time) ≡ false
unfolding user_txs swap_row
user_txs-misses pair log args time address limit s t =
    rw (text_eq-lower args.sender address s, text_eq-lower args.to address t)

-- A swap of a pair that is tracked in lower case is among the swaps of that pair, however the
-- address is written in the request.
pub pair_swaps-finds :
    (pair : Text) (log : Log SwapArgs) (args : SwapArgs) (time : ℕ) (address : Text)
    (page limit : Option Text)
    → lower pair ≡ pair
    → lower address ≡ pair
    → (pair_swaps address page limit).query.keep (swap_row pair log args time) ≡ true
unfolding pair_swaps swap_row
pair_swaps-finds pair log args time address page limit l e = rw e (text_eq_refl pair)
