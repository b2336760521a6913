-- ===== src/Wallet/Transfer.antt =====
-- `handleSend` of dex-frontend/src/pages/TransferPage.tsx. `is_address` is viem's `isAddress`.
pub mod View
use energy_chain.Shared.{
  ℕ, ◌≡◌, refl, Bool, true, false, not, ◌||◌, [], ◌∷◌, Option, none, some, if◌then◌else◌, arith,
  Option-cases, inl, inr,
}
use energy_chain.Shared.Text.{Text, codes}
use energy_chain.Wallet.Display.{Display}
use energy_chain.Wallet.Units.{Units, Token, is_positive}

-- The calls of `sendTransaction` and of `writeContract`.
pub data Sent : Type 0 where
  native_to : (to : Text) (value : ℕ) → Sent
  token_to : (token to : Text) (value : ℕ) → Sent

-- How the handler ends: with a message, with an exception, or with a call.
pub data Outcome : Type 0 where
  refused : Text → Outcome
  failed : Outcome
  sent : Sent → Outcome

-- `!recipient`
abbrev pub is_empty : Text → Bool
is_empty [] = true
is_empty (c ∷ s) = false

module _ (u : Units) (is_address : Text → Bool) where
  unfoldable pub handle_send : Token → Text → Text → Outcome
  handle_send token recipient amount =
      if is_empty recipient || not (is_address recipient)
      then refused (codes "Invalid recipient address")
      else if not (is_positive u (u.float_of amount))
      then refused (codes "Invalid amount")
      else elim (u.parse_units amount token.decimals) [
        | none ↦ failed
        | some value ↦
            if token.is_native
            then sent (native_to recipient value)
            else sent (token_to token.address recipient value)
      ]

-- The fields of the form.
pub record Fields : Type 0 where
  pub amount : Text
  pub recipient : Text

-- The effect on the receipts of the two kinds of transfer.
unfoldable pub on_receipts : Bool → Bool → Fields → Fields
on_receipts native_success erc20_success f =
    if native_success || erc20_success then record { amount = []; recipient = [] } else f

-- `balDisplay`
unfoldable pub bal_display : Display → Option (ℕ × ℕ) → Text
bal_display d none = codes "0.00"
bal_display d (some (value, decimals)) = d.to_locale 6 (d.units value decimals)

-- A form that a transfer has emptied sends nothing, whatever token is chosen.
resent :
    (u : Units) (is_address : Text → Bool) (token : Token) (native erc20 : Bool) (f : Fields)
    → (native || erc20) ≡ true
    → let g = on_receipts native erc20 f in
      handle_send u is_address token g.recipient g.amount
      ≡ refused (codes "Invalid recipient address")
unfolding on_receipts handle_send
resent u is_address token native erc20 f h = rw h refl

-- The contract that a call goes to, its recipient and its value.
abbrev pub target : Sent → Option Text × Text × ℕ
target (native_to to value) = (none, to, value)
target (token_to token to value) = (some token, to, value)

abbrev pub contract_of : Token → Option Text
contract_of token = if token.is_native then none else some token.address

-- If something is sent, the recipient is a valid address, the amount is read as a positive number,
-- and the call goes to the token's contract, or to none for the native token, with that recipient
-- and with the amount in the token's smallest unit.
pub handle_send-sent :
    (u : Units) (is_address : Text → Bool) (token : Token) (recipient amount : Text) (s : Sent)
    → handle_send u is_address token recipient amount ≡ sent s
    → (is_address recipient ≡ true)
      × (is_positive u (u.float_of amount) ≡ true)
      × (value : ℕ) × (u.parse_units amount token.decimals ≡ some value)
      × (target s ≡ (contract_of token, recipient, value))
unfolding handle_send
handle_send-sent u is_address token recipient amount s e =
    elim (Option-cases (u.parse_units amount token.decimals)) [
      | inl none_read ↦ ground arith
      | inr (value, read) ↦ (ground arith, ground arith, value, read, ground arith)
    ]
