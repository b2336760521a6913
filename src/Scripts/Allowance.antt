-- ===== src/Scripts/Allowance.antt =====
-- The allowances of the router, as the transactions of the scripts grant and use them.
pub mod Kept
pub mod Scripted
use energy_chain.Shared.{
  ℕ, ◌-◌, ◌≤◌, ◌≡◌, refl, Bool, true, false, ◌&&◌, List, [], ◌∷◌, Option, none, some, if◌then◌else◌,
}
use energy_chain.Shared.Text.{Text, text_eq}
use energy_chain.Scripts.Steps.{
  Act, create, create_token, approve, transfer, send_value, deposit, withdraw, add_liquidity_eth,
  remove_liquidity_eth, swap_exact_eth_for_tokens, swap_exact_tokens_for_tokens,
  swap_exact_tokens_for_eth, write_file, get_pair, Node, Contracts,
}

-- An amount of a token, of which a spender is granted or takes as much.
pub record Pull : Type 0 where
  pub spender : Text
  pub token : Text
  pub amount : ℕ

abbrev pub first_of : List Text → Text
first_of [] = []
first_of (token ∷ path) = token

abbrev pub granted : Act → Option Pull
granted (approve token spender amount) =
    some (record { spender = spender; token = token; amount = amount })
granted _ = none

abbrev pub same : Text → Text → Pull → Bool
same spender token p = text_eq spender p.spender && text_eq token p.token

abbrev pub amount_if : Text → Text → Option Pull → ℕ
amount_if spender token none = 0
amount_if spender token (some p) = if same spender token p then p.amount else 0

-- The allowance behind an act: an approval sets it, and what is taken lowers it.
abbrev pub behind : Text → Text → Option Pull → ℕ → ℕ
behind spender token none rest = rest
behind spender token (some p) rest = if same spender token p then p.amount else rest

-- The pair of a token with the wrapped native token, of which the router takes the pair's tokens.
abbrev pub taken_of : Text → ℕ → Option Text → Option Pull
taken_of router liquidity none = none
taken_of router liquidity (some pair) =
    some (record { spender = router; token = pair; amount = liquidity })

module _ (n : Node) (c : Contracts) where
  -- What the router takes from the sender at most, by an act behind others: of the pair that the
  -- factory has at that time, where liquidity is removed.
  abbrev pub pulled : List Act → Act → Option Pull
  pulled acts (add_liquidity_eth router token desired _ _ _ _ _) =
      some (record { spender = router; token = token; amount = desired })
  pulled acts (remove_liquidity_eth router token liquidity _ _ _ _) =
      taken_of router liquidity (n.address acts (get_pair c.factory token c.wecy))
  pulled acts (swap_exact_tokens_for_tokens router amount _ path _ _) =
      some (record { spender = router; token = first_of path; amount = amount })
  pulled acts (swap_exact_tokens_for_eth router amount _ path _ _) =
      some (record { spender = router; token = first_of path; amount = amount })
  pulled acts _ = none

  unfoldable pub allowance : Text → Text → List Act → ℕ
  allowance spender token [] = 0
  allowance spender token (a ∷ acts) =
      let rest = allowance spender token acts in
      behind spender token (granted a) (rest - amount_if spender token (pulled acts a))

  abbrev pub Covers : List Act → Option Pull → Type 0
  Covers acts none = Unit
  Covers acts (some p) = p.amount ≤ allowance p.spender p.token acts

  -- The transactions, the last one first, of which none takes more than is allowed at that time.
  abbrev pub IsCovered : List Act → Type 0
  IsCovered [] = Unit
  IsCovered (a ∷ acts) = Covers acts (pulled acts a) × IsCovered acts
