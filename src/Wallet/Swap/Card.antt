-- ===== src/Wallet/Swap/Card.antt =====
-- The rest of the swap card of dex-frontend/src/components/swap/SwapCard.tsx: what it prints, and
-- everything that changes its form.
use energy_chain.Shared.{
  ℕ, ◌≢◌, Bool, ◌||◌, [], Option, none, some, ltb, ◌==◌, if◌then◌else◌, inl, inr, Bool-cases,
}
use energy_chain.Shared.Text.{Text, codes, text_eq}
use energy_chain.Wallet.Units.{Units}
use energy_chain.Wallet.Pool.Amounts.{clean, IsAmount, clean-IsAmount}
use energy_chain.Wallet.Swap.{Form, Account, or_zero, flip, select_in, select_out, amount_in_units}
use energy_chain.Wallet.Swap.Choice.{Move, flipped, chose_in, chose_out, move, move-ne}

-- What the card prints with. `units n d` is `parseFloat(formatUnits(n, d))`, `least` is 0.0001, and
-- `to_locale k x` is `x.toLocaleString(undefined, { maximumFractionDigits: k })`.
pub record Print (u : Units) : Type 0 where
  pub units : ℕ → ℕ → u.F
  pub over : u.F → u.F → u.F
  pub is_zero : u.F → Bool
  pub least : u.F
  pub to_locale : ℕ → u.F → Text

module _ (u : Units) (print : Print u) where
  -- `fmtBal`
  unfoldable pub fmt_bal : Option ℕ → ℕ → Text
  fmt_bal none decimals = codes "0.00"
  fmt_bal (some value) decimals =
      let n = print.units value decimals in
      if u.is_finite n
      then if u.less n print.least then codes "<0.0001" else print.to_locale 6 n
      else codes "0.00"

  -- `amountOutDisplay`
  unfoldable pub amount_out_display : Form → Account → u.F
  amount_out_display f a =
      let out = or_zero a.amount_out in
      if ltb 0 out then print.units out f.token_out.decimals else u.zero_f

  -- `rate`
  unfoldable pub rate : Form → Account → Option u.F
  rate f a =
      let out = or_zero a.amount_out in
      let amount = amount_in_units u f in
      let in_val = print.units amount f.token_in.decimals in
      if (out == 0) || (amount == 0)
      then none
      else if print.is_zero in_val
      then none
      else some (print.over (print.units out f.token_out.decimals) in_val)

-- What changes the form: typing, the button of the balance, the tokens, and the end of a transaction.
pub data Event : Type 0 where
  typed : (val : Text) → Event
  took_balance : (balance : Option (ℕ × ℕ)) → Event
  moved : Move → Event
  confirmed : Event

module _ (u : Units) where
  unfoldable pub on_event : Event → Form → Form
  on_event (typed val) f = record f { amount_in = clean val }
  on_event (took_balance none) f = f
  on_event (took_balance (some (value, decimals))) f = record f {
    amount_in = u.format_units value decimals;
  }
  on_event (moved m) f = move m f
  on_event confirmed f = record f { amount_in = [] }

  -- Two tokens, and an amount of digits and dots.
  abbrev pub IsForm : Form → Type 0
  IsForm f = (f.token_in.address ≢ f.token_out.address) × IsAmount f.amount_in

  module _ (printed : (n d : ℕ) → IsAmount (u.format_units n d)) where
    move-IsAmount : (m : Move) (f : Form) → IsAmount f.amount_in → IsAmount (move m f).amount_in
    unfolding move flip select_in select_out
    move-IsAmount flipped f h = tt
    move-IsAmount (chose_in t) f h = elim (Bool-cases (text_eq t.address f.token_out.address)) [
      | inl same ↦ rw same tt
      | inr other ↦ rw other h
    ]
    move-IsAmount (chose_out t) f h = elim (Bool-cases (text_eq t.address f.token_in.address)) [
      | inl same ↦ rw same tt
      | inr other ↦ rw other h
    ]

    -- Every event keeps them, if viem prints a balance with digits and dots only.
    pub on_event-IsForm : (e : Event) (f : Form) → IsForm f → IsForm (on_event e f)
    unfolding on_event
    on_event-IsForm (typed val) f (ne, h) = (ne, clean-IsAmount val)
    on_event-IsForm (took_balance none) f h = h
    on_event-IsForm (took_balance (some (value, decimals))) f (ne, h) = (ne, printed value decimals)
    on_event-IsForm (moved m) f (ne, h) = (move-ne m f ne, move-IsAmount m f h)
    on_event-IsForm confirmed f (ne, h) = (ne, tt)
