-- ===== src/Wallet/Swap.antt =====
-- `SwapCard` of dex-frontend/src/components/swap/SwapCard.tsx without its markup: the values that a
-- rendering derives, the two transactions that it can send, and the choice of tokens.
pub mod Amounts
pub mod Choice
pub mod Card
pub mod View
use energy_chain.Shared.{
  ℕ, suc, ◌+◌, ◌-◌, ◌*◌, ◌/◌, Bool, true, false, not, ◌&&◌, ◌||◌, List, [], ◌∷◌, Option, none, some,
  ltb, ◌==◌, if◌then◌else◌,
}
use energy_chain.Shared.Int.{ℤ, pos, negsuc, sub_ℕ}
use energy_chain.Shared.Text.{Text, text_eq}
use energy_chain.Wallet.Units.{Units, Token, has_text, is_positive, float_or_zero, parsed_amount}

-- `a * f / d` on bigints: the quotient is cut off towards zero.
unfoldable pub mul_div : ℕ → ℤ → ℕ → ℤ
mul_div a (pos f) d = pos (a * f / d)
mul_div a (negsuc f) d = sub_ℕ 0 (a * suc f / d)

-- What the user has chosen and typed.
pub record Form : Type 0 where
  pub token_in : Token
  pub token_out : Token
  pub amount_in : Text

-- `getTokenAddr`
unfoldable pub token_addr : Text → Token → Text
token_addr wecy t = if t.is_native then wecy else t.address

-- The account and what the chain answered: the balance with its decimals, the second amount of
-- `getAmountsOut`, and the allowance. `none` is undefined.
pub record Account : Type 0 where
  pub address : Option Text
  pub is_connected : Bool
  pub balance_in : Option (ℕ × ℕ)
  pub amount_out : Option ℕ
  pub allowance : Option ℕ

-- `x ?? 0n`
abbrev pub or_zero : Option ℕ → ℕ
or_zero none = 0
or_zero (some n) = n

pub data Action : Type 0 where
  connect enter insufficient approve swap : Action

-- The calls of `writeContract`.
pub data Call : Type 0 where
  approve_router : (token : Text) → Call
  swap_exact_eth_for_tokens :
      (value : ℕ) (min : ℤ) (path : List Text) (to : Text) (deadline : ℕ) → Call
  swap_exact_tokens_for_eth :
      (amount : ℕ) (min : ℤ) (path : List Text) (to : Text) (deadline : ℕ) → Call
  swap_exact_tokens_for_tokens :
      (amount : ℕ) (min : ℤ) (path : List Text) (to : Text) (deadline : ℕ) → Call

-- `flip`
unfoldable pub flip : Form → Form
flip f = record { token_in = f.token_out; token_out = f.token_in; amount_in = [] }

-- `onSelect` of the token selector, for the two targets.
unfoldable pub select_in : Token → Form → Form
unfolding flip
select_in t f = if text_eq t.address f.token_out.address then flip f else record f { token_in = t }

unfoldable pub select_out : Token → Form → Form
unfolding flip
select_out t f = if text_eq t.address f.token_in.address then flip f else record f { token_out = t }

unfoldable pub path : Text → Form → List Text
unfolding token_addr
path wecy f = token_addr wecy f.token_in ∷ token_addr wecy f.token_out ∷ []

module _ (u : Units) where
  unfoldable pub amount_in_units : Form → ℕ
  amount_in_units f = parsed_amount u f.amount_in f.token_in.decimals

  -- `minReceived` at a slippage in percent
  unfoldable pub min_received : u.F → Account → ℤ
  min_received slippage a =
      let out = or_zero a.amount_out in
      if ltb 0 out then mul_div out (u.basis_points slippage) 10000 else pos 0

  unfoldable pub needs_approval : Form → Account → Bool
  needs_approval f a =
      not f.token_in.is_native
      && ltb 0 (amount_in_units f)
      && ltb (or_zero a.allowance) (amount_in_units f)

  -- `hasAmount`
  unfoldable pub has_amount : Form → Bool
  has_amount f = has_text f.amount_in && u.less u.zero_f (float_or_zero u f.amount_in)

  -- `balanceInNum`, where a text that does not parse is not above any number
  unfoldable pub balance_number : Account → Option u.F
  balance_number a = elim a.balance_in [
    | none ↦ some u.zero_f
    | some (value, decimals) ↦ u.float_of (u.format_units value decimals)
  ]

  abbrev pub above : u.F → Option u.F → Bool
  above x none = false
  above x (some b) = u.less b x

  -- `insufficient`
  unfoldable pub is_insufficient : Form → Account → Bool
  is_insufficient f a =
      a.is_connected && has_amount f && above (float_or_zero u f.amount_in) (balance_number a)

  -- What the button of the card does.
  unfoldable pub action : Form → Account → Action
  action f a =
      if not a.is_connected
      then connect
      else if not (has_amount f)
      then enter
      else if is_insufficient f a
      then insufficient
      else if needs_approval f a
      then approve
      else swap

  unfoldable pub handle_approve : Text → Form → Call
  handle_approve wecy f = approve_router (token_addr wecy f.token_in)

  -- `handleSwap` at a time in seconds; `none` is the early return.
  unfoldable pub handle_swap : Text → u.F → ℕ → Form → Account → Option Call
  handle_swap wecy slippage now f a = elim a.address [
    | none ↦ none
    | some to ↦
        let amount = amount_in_units f in
        let least = min_received slippage a in
        let deadline = now + 1200 in
        if amount == 0
        then none
        else if f.token_in.is_native
        then some (swap_exact_eth_for_tokens amount least (path wecy f) to deadline)
        else if f.token_out.is_native
        then some (swap_exact_tokens_for_eth amount least (path wecy f) to deadline)
        else some (swap_exact_tokens_for_tokens amount least (path wecy f) to deadline)
  ]
