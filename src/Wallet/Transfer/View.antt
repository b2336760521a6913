-- ===== src/Wallet/Transfer/View.antt =====
-- What `TransferPage` of dex-frontend/src/pages/TransferPage.tsx renders, and what the user's gestures
-- on it do.
pub mod Sends
use energy_chain.Shared.{
  ℕ, Bool, true, false, not, ◌||◌, List, [], ◌∷◌, ◌++◌, Option, none, some, if◌then◌else◌,
}
use energy_chain.Shared.Text.{Text, codes}
use energy_chain.Wallet.Units.{Units, Token}
use energy_chain.Wallet.Display.{Display}
use energy_chain.Wallet.Pool.Amounts.{clean}
use energy_chain.Wallet.Selector.View.{token_selector}
use energy_chain.Wallet.Markup.{
  Item, shows, connect_wallet, button, choice, words, field, when, Gesture, fire,
}
use energy_chain.Wallet.Transfer.{Fields, Outcome, handle_send, on_receipts, bal_display}

-- `tab`
pub data Tab : Type 0 where
  send_tab receive_tab : Tab

-- The state of the page, with that of the selector (`query`).
pub record State : Type 0 where
  pub tab : Tab
  pub token : Token
  pub fields : Fields
  pub selector_open : Bool
  pub query : Text
  pub copied : Bool

-- What the hooks answer to a rendering: the flags are those of the native transfer and of that of a
-- token. `clipboard` tells whether a text can be written to the clipboard.
pub record Hooks : Type 0 where
  pub address : Option Text
  pub is_connected : Bool
  pub bal : Option (ℕ × ℕ)
  pub native_pending : Bool
  pub native_confirming : Bool
  pub erc20_pending : Bool
  pub erc20_confirming : Bool
  pub clipboard : Bool

-- What the handlers of the page do.
pub data Click : Type 0 where
  opens_selector closes_selector sends_it copies took_balance : Click
  turns_to : (t : Tab) → Click
  searches : (s : Text) → Click
  picks : (t : Token) → Click
  types_amount : (s : Text) → Click
  types_recipient : (s : Text) → Click

-- `busy`
unfoldable pub busy : Hooks → Bool
busy h = h.native_pending || h.native_confirming || h.erc20_pending || h.erc20_confirming

unfoldable pub is_send : Tab → Bool
is_send send_tab = true
is_send receive_tab = false

unfoldable pub tabs : Tab → List (Item Click)
tabs t =
    choice (is_send t) (turns_to send_tab) (codes "send" ∷ [])
    ∷ choice (not (is_send t)) (turns_to receive_tab) (codes "receive" ∷ [])
    ∷ []

unfoldable pub send_form : Display → Hooks → State → List (Item Click)
send_form d h s =
    shows (codes "Token")
    ∷ button false opens_selector (words s.token.symbol)
    ∷ shows (codes "Balance: ")
    ∷ button false took_balance (words (bal_display d h.bal))
    ∷ shows (codes "Amount")
    ∷ field s.fields.amount (codes "0.0") types_amount
    ∷ shows (codes "Recipient")
    ∷ field s.fields.recipient (codes "0x…") types_recipient
    ∷ button (busy h) sends_it (words (if busy h then codes "Sending..." else codes "Send"))
    ∷ []

unfoldable pub send_panel : Display → Hooks → State → List (Item Click)
send_panel d h s =
    shows (codes "Send")
    ∷ (if not h.is_connected
        then shows (codes "Connect a wallet to send tokens.") ∷ connect_wallet ∷ []
        else send_form d h s)

-- `{address}`, which renders nothing without one
abbrev pub address_text : Option Text → Text
address_text none = []
address_text (some a) = a

unfoldable pub receive_panel : Hooks → State → List (Item Click)
receive_panel h s =
    shows (codes "Receive")
    ∷ (if not h.is_connected
        then shows (codes "Connect a wallet to see your address.") ∷ connect_wallet ∷ []
        else shows (codes "Send assets to this address on EnergyChain.")
          ∷ shows (address_text h.address)
          ∷ button false copies (words (if s.copied then codes "Copied" else codes "Copy address"))
          ∷ [])

-- The page, with the selector over all tokens.
unfoldable pub transfer_page : Display → List Token → Hooks → State → List (Item Click)
transfer_page d tokens h s =
    tabs s.tab
    ++ (when (is_send s.tab) (send_panel d h s)
        ++ (when (not (is_send s.tab)) (receive_panel h s)
            ++ token_selector closes_selector searches picks s.selector_open s.query (some s.token)
                tokens))

-- The end of `copyAddress`: nothing without an address, and an exception where the clipboard refuses.
unfoldable pub copy_address : Hooks → State → State
copy_address h s = elim h.address [
  | none ↦ s
  | some a ↦ if h.clipboard then record s { copied = true } else s
]

module _ (u : Units) where
  -- `bal && setAmount(…)`
  unfoldable pub take_balance : Option (ℕ × ℕ) → Fields → Fields
  take_balance none f = f
  take_balance (some (value, decimals)) f = record f { amount = u.format_units value decimals }

  -- What a handler changes.
  unfoldable pub on_click : Hooks → Click → State → State
  on_click h opens_selector s = record s { selector_open = true }
  on_click h closes_selector s = record s { selector_open = false }
  on_click h sends_it s = s
  on_click h copies s = copy_address h s
  on_click h took_balance s = record s { fields = take_balance h.bal s.fields }
  on_click h (turns_to t) s = record s { tab = t }
  on_click h (searches q) s = record s { query = q }
  on_click h (picks t) s = record s { token = t; selector_open = false; query = [] }
  on_click h (types_amount v) s = record s { fields = record s.fields { amount = clean v } }
  on_click h (types_recipient v) s = record s { fields = record s.fields { recipient = v } }

  unfoldable pub changed_by : Hooks → Option Click → State → State
  changed_by h none s = s
  changed_by h (some e) s = on_click h e s

  -- How a handler that sends ends; `none` for the others.
  unfoldable pub outcome_of : (Text → Bool) → State → Option Click → Option Outcome
  outcome_of is_address s (some sends_it) =
      some (handle_send u is_address s.token s.fields.recipient s.fields.amount)
  outcome_of is_address s _ = none

-- What happens to the page: a gesture on what it renders, the effect of the two receipts, and the end
-- of the two seconds after a copy.
pub data Happening : Type 0 where
  gesture : (g : Gesture) → Happening
  receipts : (native_success erc20_success : Bool) → Happening
  copy_ends : Happening

module _ (u : Units) (d : Display) (tokens : List Token) where
  unfoldable pub happens : Hooks → Happening → State → State
  happens h (gesture g) s = changed_by u h (fire (transfer_page d tokens h s) g) s
  happens h (receipts native_success erc20_success) s = record s {
    fields = on_receipts native_success erc20_success s.fields;
  }
  happens h copy_ends s = record s { copied = false }

  unfoldable pub run_transfer : List (Hooks × Happening) → State → State
  run_transfer [] s = s
  run_transfer ((h, e) ∷ steps) s = run_transfer steps (happens h e s)

  -- How the handler of a gesture ends that sends, if the gesture calls it.
  unfoldable pub transfer_call : (Text → Bool) → Hooks → State → Gesture → Option Outcome
  transfer_call is_address h s g = outcome_of u is_address s (fire (transfer_page d tokens h s) g)
