-- ===== src/Tests/Forms.antt =====
-- The amounts of the pool page at small inputs.
use energy_chain.Shared.{ℕ, ◌≡◌, refl, true, [], ◌∷◌, Option, none, some, ltb}
use energy_chain.Shared.Int.{pos}
use energy_chain.Shared.Text.{Text, codes}
use energy_chain.Shared.Number.{parse_int, to_string}
use energy_chain.Wallet.Units.{Units, is_positive}
use energy_chain.Wallet.Pool.Amounts.{
  Amounts, PairReserves, typed_a, edits, handle_amount_a_change, handle_amount_b_change, paired,
  clean, edit,
}

abbrev whole : Units
whole = record {
  F = ℕ;
  zero_f = 0;
  half = 1;
  less = λ a b. ltb a b;
  float_of = λ s. elim (parse_int s) as (λ _. Option ℕ) [ some (pos n) ↦ some n | _ ↦ none ];
  is_finite = λ a. true;
  parse_units = λ s d. elim (parse_int s) as (λ _. Option ℕ) [ some (pos n) ↦ some n | _ ↦ none ];
  format_units = λ n d. to_string n;
  basis_points = λ s. pos 9950;
}

-- Every scaled amount is printed alike.
abbrev scaled : ℕ → ℕ → ℕ → Text
scaled x y z = codes "2.50"

abbrev empty_form : Amounts
empty_form = record { amount_a = []; amount_b = [] }

abbrev reserves : PairReserves ℕ
reserves = record { r_a = 4; r_b = 10 }

forms : Unit {0}
unfolding edits edit handle_amount_a_change handle_amount_b_change paired clean parse_int
    is_positive
forms = tt

-- What is no digit is dropped, and the other amount is filled in.
typed :
    edits whole scaled ((some reserves, typed_a (codes "1x")) ∷ []) empty_form
    ≡ record { amount_a = codes "1"; amount_b = codes "2.50" }
unfolding forms
typed = refl
