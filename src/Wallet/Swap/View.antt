-- ===== src/Wallet/Swap/View.antt =====
-- What `SwapCard` of dex-frontend/src/components/swap/SwapCard.tsx renders, with its selector and its
-- settings, and what the user's gestures on it do.
pub mod Possible
pub mod Sends
pub mod Keeps
use energy_chain.Shared.{
  ℕ, Bool, true, false, ◌&&◌, ◌||◌, List, [], ◌∷◌, ◌++◌, Option, none, some, take, if◌then◌else◌,
}
use energy_chain.Shared.Int.{ℤ}
use energy_chain.Shared.Text.{Text, codes}
use energy_chain.Wallet.Units.{Units, Token}
use energy_chain.Wallet.Settings.{Settings, Setting, apply}
use energy_chain.Wallet.Settings.View.{swap_settings}
use energy_chain.Wallet.Selector.View.{token_selector}
use energy_chain.Wallet.Markup.{
  Item, shows, connect_wallet, dead, button, Label, words, spinner, field, when, Gesture, fire,
}
use energy_chain.Wallet.Swap.{
  Form, Account, Action, connect, enter, insufficient, approve, swap, Call, select_in, select_out,
  min_received, has_amount, action, handle_approve, handle_swap,
}
use energy_chain.Wallet.Swap.Choice.{flipped}
use energy_chain.Wallet.Swap.Card.{
  Print, fmt_bal, amount_out_display, rate, Event, typed, took_balance, moved, confirmed, on_event,
}

-- `selectorTarget`, where `none` is null
pub data Target : Type 0 where
  for_in for_out : Target

-- The state of the card, of its selector (`query`), and the store of the settings.
pub record Card : Type 0 where
  pub form : Form
  pub selector_target : Option Target
  pub query : Text
  pub settings_open : Bool
  pub settings : Settings

-- What the hooks answer to a rendering: the account, the balance of the second token with its
-- decimals, what `getSlippagePercent` returns, the two flags of a transaction, and the clock.
pub record Hooks (u : Units) : Type 0 where
  pub account : Account
  pub balance_out : Option (ℕ × ℕ)
  pub slippage : u.F
  pub is_sending : Bool
  pub is_confirming : Bool
  pub now : ℕ

-- What the handlers of the card do.
pub data Click : Type 0 where
  opens_settings closes_settings closes_selector approves swaps : Click
  opens_selector : (target : Target) → Click
  changes : (c : Setting) → Click
  searches : (s : Text) → Click
  picks : (t : Token) → Click
  edits : (e : Event) → Click

-- `onSelect`
unfoldable pub on_select : Option Target → Token → Form → Form
on_select none t f = f
on_select (some for_in) t f = select_in t f
on_select (some for_out) t f = select_out t f

-- `selectorTarget !== null`
abbrev pub is_open : Option Target → Bool
is_open none = false
is_open (some target) = true

-- `selectorTarget === "out" ? tokenOut : tokenIn`
abbrev pub selected : Option Target → Form → Token
selected none f = f.token_in
selected (some for_in) f = f.token_in
selected (some for_out) f = f.token_out

module _ (u : Units) where
  -- `busy`
  unfoldable pub busy : Hooks u → Bool
  busy h = h.is_sending || h.is_confirming

  -- The printing of the card. `signed` is viem's `formatUnits` on an amount that can be negative, and
  -- `number` a number in a template.
  module _ (print : Print u) (signed : ℤ → ℕ → Text) (number : u.F → Text) where
    unfoldable pub balance_text : Bool → Option (ℕ × ℕ) → Token → Text
    balance_text is_connected balance t =
        if is_connected
        then elim balance [
          | none ↦ fmt_bal u print none t.decimals
          | some (value, decimals) ↦ fmt_bal u print (some value) decimals
        ]
        else codes "—"

    unfoldable pub from_panel : Hooks u → Form → List (Item Click)
    from_panel h f =
        shows (codes "From")
        ∷ shows (codes "Balance: ")
        ∷ button false (edits (took_balance h.account.balance_in))
            (words (balance_text h.account.is_connected h.account.balance_in f.token_in))
        ∷ button false (opens_selector for_in) (words f.token_in.symbol)
        ∷ field f.amount_in (codes "0.0") (λ s. edits (typed s))
        ∷ []

    unfoldable pub output_text : Hooks u → Form → Text
    output_text h f =
        let out = amount_out_display u print f h.account in
        if u.less u.zero_f out then print.to_locale 6 out else codes "0.0"

    unfoldable pub to_panel : Hooks u → Form → List (Item Click)
    to_panel h f =
        shows (codes "To")
        ∷ shows (codes "Balance: ")
        ∷ shows (balance_text h.account.is_connected h.balance_out f.token_out)
        ∷ button false (opens_selector for_out) (words f.token_out.symbol)
        ∷ shows (output_text h f)
        ∷ []

    -- The panel with the rate and the least amount.
    unfoldable pub info_panel : Hooks u → Form → Option u.F → List (Item Click)
    info_panel h f none = []
    info_panel h f (some r) = when (has_amount u f) (
        shows (codes "Rate")
        ∷ shows (
            codes "1 "
            ++ (f.token_in.symbol
                ++ (codes " ≈ " ++ (print.to_locale 6 r ++ (codes " " ++ f.token_out.symbol)))))
        ∷ shows (codes "Minimum received (" ++ (number h.slippage ++ codes "% slippage)"))
        ∷ shows (
            take 12 (signed (min_received u h.slippage h.account) f.token_out.decimals)
            ++ (codes " " ++ f.token_out.symbol))
        ∷ [])

    unfoldable pub busy_or : Hooks u → Text → Label
    busy_or h s = if busy h then spinner else words s

    unfoldable pub action_item : Hooks u → Form → Action → Item Click
    action_item h f connect = connect_wallet
    action_item h f enter = dead (codes "Enter an amount")
    action_item h f insufficient =
        dead (codes "Insufficient " ++ (f.token_in.symbol ++ codes " balance"))
    action_item h f approve =
        button (busy h) approves (busy_or h (codes "Approve " ++ f.token_in.symbol))
    action_item h f swap = button (busy h) swaps (busy_or h (codes "Swap"))

    -- The card, with the selector over all tokens and the settings.
    unfoldable pub swap_card : List Token → Hooks u → Card → List (Item Click)
    swap_card tokens h c =
        (shows (codes "Swap") ∷ button false opens_settings (words (codes "Settings")) ∷ [])
        ++ (from_panel h c.form
            ++ (button false (edits (moved flipped)) (words (codes "Flip tokens"))
                ∷ (to_panel h c.form
                    ++ (info_panel h c.form (rate u print c.form h.account)
                        ++ (action_item h c.form (action u c.form h.account)
                            ∷ (token_selector closes_selector searches picks
                                  (is_open c.selector_target) c.query
                                  (some (selected c.selector_target c.form)) tokens
                                ++ swap_settings closes_settings changes c.settings_open
                                    c.settings))))))

  -- What a handler changes.
  unfoldable pub on_click : Click → Card → Card
  on_click opens_settings c = record c { settings_open = true }
  on_click closes_settings c = record c { settings_open = false }
  on_click closes_selector c = record c { selector_target = none }
  on_click approves c = c
  on_click swaps c = c
  on_click (opens_selector target) c = record c { selector_target = some target }
  on_click (changes s) c = record c { settings = apply s c.settings }
  on_click (searches s) c = record c { query = s }
  on_click (picks t) c = record c {
    form = on_select c.selector_target t c.form;
    selector_target = none;
    query = [];
  }
  on_click (edits e) c = record c { form = on_event u e c.form }

  -- What a handler sends.
  unfoldable pub sends : Text → Hooks u → Form → Click → Option Call
  sends wecy h f opens_settings = none
  sends wecy h f closes_settings = none
  sends wecy h f closes_selector = none
  sends wecy h f approves = some (handle_approve u wecy f)
  sends wecy h f swaps = handle_swap u wecy h.slippage h.now f h.account
  sends wecy h f (opens_selector target) = none
  sends wecy h f (changes s) = none
  sends wecy h f (searches s) = none
  sends wecy h f (picks t) = none
  sends wecy h f (edits e) = none

  unfoldable pub sent_by : Text → Hooks u → Form → Option Click → Option Call
  sent_by wecy h f none = none
  sent_by wecy h f (some e) = sends wecy h f e

  unfoldable pub changed_by : Option Click → Card → Card
  changed_by none c = c
  changed_by (some e) c = on_click e c

module _ (u : Units) (print : Print u) (signed : ℤ → ℕ → Text) (number : u.F → Text)
    (tokens : List Token) where
  -- The call that a gesture on the card sends, if any.
  unfoldable pub card_call : Text → Hooks u → Card → Gesture → Option Call
  card_call wecy h c g =
      sent_by u wecy h c.form (fire (swap_card u print signed number tokens h c) g)

  -- What happens to the card: a gesture on what it renders, and the end of a transaction.
  unfoldable pub happens : Hooks u → Option Gesture → Card → Card
  happens h none c = record c { form = on_event u confirmed c.form }
  happens h (some g) c = changed_by u (fire (swap_card u print signed number tokens h c) g) c

  unfoldable pub run_card : List (Hooks u × Option Gesture) → Card → Card
  run_card [] c = c
  run_card ((h, g) ∷ steps) c = run_card steps (happens h g c)
