-- ===== src/Wallet/Swap/View/Possible.antt =====
-- What a rendering of the swap card can cause.
use mathlib.Core.List.{Memᴰ}
use energy_chain.Shared.{
  ℕ, ◌≡◌, refl, false, List, ◌++◌, Option, none, some, All, All-append, All-Mem,
}
use energy_chain.Shared.Int.{ℤ}
use energy_chain.Shared.Text.{Text}
use energy_chain.Wallet.Units.{Units, Token}
use energy_chain.Wallet.Settings.View.{swap_settings, swap_settings-Only}
use energy_chain.Wallet.Selector.View.{token_selector, token_selector-Only}
use energy_chain.Wallet.Markup.{Item, Gesture, fire, Only, when-Only, fire-Only}
use energy_chain.Wallet.Swap.{
  Form, Action, connect, enter, insufficient, approve, swap, action, has_amount,
}
use energy_chain.Wallet.Swap.Choice.{flipped, chose_in, chose_out}
use energy_chain.Wallet.Swap.Card.{Print, rate, Event, typed, took_balance, moved, confirmed}
use energy_chain.Wallet.Swap.View.{
  Card, Hooks, Click, opens_settings, closes_settings, closes_selector, approves, swaps,
  opens_selector, changes, searches, picks, edits, is_open, selected, busy, from_panel, to_panel,
  info_panel, action_item, swap_card,
}

abbrev pub PossibleEdit : List Token → Event → Type 0
PossibleEdit tokens (typed s) = Unit
PossibleEdit tokens (took_balance balance) = Unit
PossibleEdit tokens (moved flipped) = Unit
PossibleEdit tokens (moved (chose_in t)) = Memᴰ t tokens
PossibleEdit tokens (moved (chose_out t)) = Memᴰ t tokens
PossibleEdit tokens confirmed = Unit

-- An approval and a swap only from the button of that action while nothing is under way, and only
-- tokens of the list.
abbrev pub Possible : (u : Units) → List Token → Hooks u → Form → Click → Type 0
Possible u tokens h f opens_settings = Unit
Possible u tokens h f closes_settings = Unit
Possible u tokens h f closes_selector = Unit
Possible u tokens h f approves = (action u f h.account ≡ approve) × (busy u h ≡ false)
Possible u tokens h f swaps = (action u f h.account ≡ swap) × (busy u h ≡ false)
Possible u tokens h f (opens_selector target) = Unit
Possible u tokens h f (changes c) = Unit
Possible u tokens h f (searches s) = Unit
Possible u tokens h f (picks t) = Memᴰ t tokens
Possible u tokens h f (edits e) = PossibleEdit tokens e

module _ (u : Units) (print : Print u) (signed : ℤ → ℕ → Text) (number : u.F → Text)
    (tokens : List Token) (h : Hooks u) (f : Form) where
  abbrev O : Item Click → Type 0
  O = Only (Possible u tokens h f)

  from_panel-Only : All O (from_panel u print signed number h f)
  unfolding from_panel
  from_panel-Only = (tt, (tt, ((λ _. tt), ((λ _. tt), ((λ s. tt), tt)))))

  to_panel-Only : All O (to_panel u print signed number h f)
  unfolding to_panel
  to_panel-Only = (tt, (tt, (tt, ((λ _. tt), (tt, tt)))))

  info_panel-Only : (r : Option u.F) → All O (info_panel u print signed number h f r)
  unfolding info_panel
  info_panel-Only none = tt
  info_panel-Only (some r) =
      when-Only (Possible u tokens h f) (has_amount u f) _ (λ _. (tt, (tt, (tt, (tt, tt)))))

  action_item-Only :
      (a : Action) → action u f h.account ≡ a → O (action_item u print signed number h f a)
  unfolding action_item
  action_item-Only connect e = tt
  action_item-Only enter e = tt
  action_item-Only insufficient e = tt
  action_item-Only approve e = λ idle. (e, idle)
  action_item-Only swap e = λ idle. (e, idle)

  dialogs-Only :
      (c : Card)
      → All O (
          token_selector closes_selector searches picks
            (is_open c.selector_target)
            c.query
            (some (selected c.selector_target f))
            tokens
          ++ swap_settings closes_settings changes c.settings_open c.settings)
  dialogs-Only c =
      let P = Possible u tokens h f in
      All-append O (token_selector closes_selector searches picks _ c.query _ tokens) _
        (token_selector-Only P closes_selector searches picks tt (λ s. tt) _ c.query _ tokens
          (All-Mem (λ t. P (picks t)) tokens (λ t m. m)))
        (swap_settings-Only P closes_settings changes tt (λ s. tt) c.settings_open c.settings)

module _ (u : Units) (print : Print u) (signed : ℤ → ℕ → Text) (number : u.F → Text)
    (tokens : List Token) (h : Hooks u) (c : Card) where
  swap_card-Only :
      All (O u print signed number tokens h c.form) (swap_card u print signed number tokens h c)
  unfolding swap_card
  swap_card-Only =
      let f = c.form in
      let P = O u print signed number tokens h f in
      let r = rate u print f h.account in
      (
        tt,
        (
          (λ _. tt),
          All-append P (from_panel u print signed number h f) _
              (from_panel-Only u print signed number tokens h f)
              (
                (λ _. tt),
                All-append P (to_panel u print signed number h f) _
                    (to_panel-Only u print signed number tokens h f)
                    (All-append P (info_panel u print signed number h f r) _
                      (info_panel-Only u print signed number tokens h f r)
                      (
                        action_item-Only u print signed number tokens h f (action u f h.account)
                            refl,
                        dialogs-Only u print signed number tokens h f c,
                      )),
              ),
        ),
      )

  -- The event of a gesture is one of them.
  pub fire-Possible :
      (g : Gesture) (e : Click)
      → fire (swap_card u print signed number tokens h c) g ≡ some e
      → Possible u tokens h c.form e
  fire-Possible g e =
      fire-Only (Possible u tokens h c.form) (swap_card u print signed number tokens h c) g e
        swap_card-Only
