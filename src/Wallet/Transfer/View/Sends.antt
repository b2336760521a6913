-- ===== src/Wallet/Transfer/View/Sends.antt =====
-- What a gesture on the transfer page sends.
use mathlib.Core.Option.{none-ne-some, some-injective}
use energy_chain.Shared.{
  ℕ, ◌≡◌, refl, Bool, true, false, not, List, Option, none, some, All, All-append, All-Mem,
  if◌then◌else◌, arith,
}
use energy_chain.Shared.Text.{Text}
use energy_chain.Wallet.Units.{Units, Token, is_positive}
use energy_chain.Wallet.Display.{Display}
use energy_chain.Wallet.Selector.View.{token_selector-Only}
use energy_chain.Wallet.Markup.{Item, Gesture, fire, Only, when, when-Only, fire-Only}
use energy_chain.Wallet.Transfer.{Sent, sent, target, contract_of, handle_send-sent}
use energy_chain.Wallet.Transfer.View.{
  State, Hooks, Click, opens_selector, closes_selector, sends_it, copies, took_balance, turns_to,
  searches, picks, types_amount, types_recipient, busy, is_send, tabs, send_form, send_panel,
  receive_panel, transfer_page, outcome_of, transfer_call,
}

-- No transfer waits for its signature or for its confirmation, of the native token or of another.
abbrev pub IsIdle : Hooks → Type 0
IsIdle h =
    (h.native_pending ≡ false)
    × (h.native_confirming ≡ false)
    × (h.erc20_pending ≡ false)
    × (h.erc20_confirming ≡ false)

-- The button that sends is there only on its tab and for a connected account, and is disabled while
-- a transfer is under way.
abbrev pub MaySend : Hooks → State → Type 0
MaySend h s = (is_send s.tab ≡ true) × (h.is_connected ≡ true) × IsIdle h

busy-IsIdle : (h : Hooks) → busy h ≡ false → IsIdle h
unfolding busy
busy-IsIdle h e = ground arith

abbrev pub Possible : Hooks → State → Click → Type 0
Possible h s opens_selector = Unit
Possible h s closes_selector = Unit
Possible h s sends_it = MaySend h s
Possible h s copies = Unit
Possible h s took_balance = Unit
Possible h s (turns_to t) = Unit
Possible h s (searches q) = Unit
Possible h s (picks t) = Unit
Possible h s (types_amount v) = Unit
Possible h s (types_recipient v) = Unit

module _ (d : Display) (h : Hooks) (s : State) where
  abbrev O : Item Click → Type 0
  O = Only (Possible h s)

  branch-Only :
      (connected : Bool) (a b : List (Item Click))
      → All O a
      → (connected ≡ true → All O b)
      → All O (if not connected then a else b)
  branch-Only true a b ha hb = hb refl
  branch-Only false a b ha hb = ha

  send_panel-Only : is_send s.tab ≡ true → All O (send_panel d h s)
  unfolding send_panel send_form
  send_panel-Only here = (
    tt,
    branch-Only h.is_connected _ _ (tt, (tt, tt))
        (λ connected. (
          tt,
          (
            (λ _. tt),
            (
              tt,
              (
                (λ _. tt),
                (
                  tt,
                  (
                    (λ v. tt),
                    (tt, ((λ v. tt), ((λ idle. (here, connected, busy-IsIdle h idle)), tt))),
                  ),
                ),
              ),
            ),
          ),
        )),
  )

  receive_panel-Only : All O (receive_panel h s)
  unfolding receive_panel
  receive_panel-Only =
      (tt, branch-Only h.is_connected _ _ (tt, (tt, tt)) (λ _. (tt, (tt, ((λ _. tt), tt)))))

  transfer_page-Only : (tokens : List Token) → All O (transfer_page d tokens h s)
  unfolding transfer_page tabs
  transfer_page-Only tokens = (
    tt,
    (
      tt,
      All-append O (when (is_send s.tab) (send_panel d h s)) _
          (when-Only (Possible h s) (is_send s.tab) _ send_panel-Only)
          (All-append O (when (not (is_send s.tab)) (receive_panel h s)) _
            (when-Only (Possible h s) (not (is_send s.tab)) _ (λ _. receive_panel-Only))
            (token_selector-Only (Possible h s) closes_selector searches picks tt (λ q. tt) _
              s.query _ tokens (All-Mem (λ t. Possible h s (picks t)) tokens (λ t m. tt)))),
    ),
  )

-- What is sent: to a valid address, an amount that is read as a positive number, by a call of the
-- token's contract, or of none for the native token, with that recipient and the amount in the
-- token's smallest unit.
abbrev pub IsTransfer : (u : Units) → (Text → Bool) → State → Sent → Type 0
IsTransfer u is_address s c =
    (is_address s.fields.recipient ≡ true)
    × (is_positive u (u.float_of s.fields.amount) ≡ true)
    × (value : ℕ) × (u.parse_units s.fields.amount s.token.decimals ≡ some value)
    × (target c ≡ (contract_of s.token, s.fields.recipient, value))

outcome_of-IsSound :
    (u : Units) (is_address : Text → Bool) (h : Hooks) (s : State) (o : Option Click) (c : Sent)
    → ((e : Click) → o ≡ some e → Possible h s e)
    → outcome_of u is_address s o ≡ some (sent c)
    → MaySend h s × IsTransfer u is_address s c
unfolding outcome_of
outcome_of-IsSound u is_address h s (some sends_it) c p e = (
  p sends_it refl,
  handle_send-sent u is_address s.token s.fields.recipient s.fields.amount c
      (some-injective _ (sent c) e),
)
outcome_of-IsSound u is_address h s none c p e = elim (none-ne-some (sent c) e) [ ]
outcome_of-IsSound u is_address h s (some opens_selector) c p e = elim (none-ne-some (sent c) e) [ ]
outcome_of-IsSound u is_address h s (some closes_selector) c p e =
    elim (none-ne-some (sent c) e) [ ]
outcome_of-IsSound u is_address h s (some copies) c p e = elim (none-ne-some (sent c) e) [ ]
outcome_of-IsSound u is_address h s (some took_balance) c p e = elim (none-ne-some (sent c) e) [ ]
outcome_of-IsSound u is_address h s (some (turns_to t)) c p e = elim (none-ne-some (sent c) e) [ ]
outcome_of-IsSound u is_address h s (some (searches q)) c p e = elim (none-ne-some (sent c) e) [ ]
outcome_of-IsSound u is_address h s (some (picks t)) c p e = elim (none-ne-some (sent c) e) [ ]
outcome_of-IsSound u is_address h s (some (types_amount v)) c p e =
    elim (none-ne-some (sent c) e) [ ]
outcome_of-IsSound u is_address h s (some (types_recipient v)) c p e =
    elim (none-ne-some (sent c) e) [ ]

-- No gesture on a rendering of the page sends anything unless the page shows the tab that sends, the
-- account is connected, and no transfer, native or not, waits for its signature or its confirmation.
-- What is sent then goes to a valid address, has an amount that is read as a positive number, and is a call of the token's contract, or of none for
-- the native token, with that recipient and that amount in the token's smallest unit.
pub transfer_call-IsTransfer :
    (u : Units) (d : Display) (tokens : List Token) (is_address : Text → Bool) (h : Hooks)
    (s : State) (g : Gesture) (c : Sent)
    → transfer_call u d tokens is_address h s g ≡ some (sent c)
    → MaySend h s × IsTransfer u is_address s c
unfolding transfer_call
transfer_call-IsTransfer u d tokens is_address h s g c =
    outcome_of-IsSound u is_address h s (fire (transfer_page d tokens h s) g) c (λ e.
      fire-Only (Possible h s) (transfer_page d tokens h s) g e (transfer_page-Only d h s tokens))
