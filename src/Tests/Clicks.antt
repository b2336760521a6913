-- ===== src/Tests/Clicks.antt =====
-- What the user does on the swap card.
use mathlib.Core.List.{Memᴰ}
use energy_chain.Shared.{
  ℕ, ◌/◌, ◌≡◌, refl, true, false, List, [], ◌∷◌, Option, none, some, arith, ◌==◌,
}
use energy_chain.Shared.Int.{ℤ, pos}
use energy_chain.Shared.Text.{Text, codes, lower}
use energy_chain.Shared.Number.{parse_int, to_string, trim_start}
use energy_chain.Wallet.Units.{Units, Token, has_text, is_positive, float_or_zero, parsed_amount}
use energy_chain.Wallet.Settings.{initial}
use energy_chain.Wallet.Markup.{Gesture, press, enter_text, fire, pressed, when}
use energy_chain.Wallet.Settings.View.{swap_settings, preset_item}
use energy_chain.Wallet.Selector.{filtered_tokens, filtered_by}
use energy_chain.Wallet.Selector.View.{token_selector, token_items, token_item}
use energy_chain.Wallet.Swap
use energy_chain.Wallet.Swap.Card.{Print, rate, fmt_bal, amount_out_display}
use energy_chain.Wallet.Swap.View.{
  Card, Hooks, card_call, sent_by, sends, swap_card, from_panel, to_panel, info_panel, action_item,
  balance_text, output_text, busy_or, busy, run_card,
}
use energy_chain.Wallet.Swap.View.Sends.{IsSound, card_call-IsSound}
use energy_chain.Wallet.Swap.View.Keeps.{IsKept, run_card-IsKept}
use energy_chain.Tests.Pages.{whole, ecy, wecy, usdt, form, account, usdt_ecy}

-- Every balance is printed alike.
abbrev fixed : Units
fixed = record whole { format_units = λ n d. codes "2.50" }

abbrev print : Print whole
print = record {
  units = λ n d. n;
  over = λ a b. a / b;
  is_zero = λ a. a == 0;
  least = 0;
  to_locale = λ k a. to_string a;
}

abbrev signed : ℤ → ℕ → Text
signed n d = codes "2.50"

abbrev pub tokens : List Token
tokens = ecy ∷ wecy ∷ usdt ∷ []

abbrev hooks : Hooks whole
hooks = record {
  account = account;
  balance_out = none;
  slippage = 1;
  is_sending = false;
  is_confirming = false;
  now = 1000;
}

abbrev card : Card
card = record {
  form = form;
  selector_target = none;
  query = [];
  settings_open = false;
  settings = initial;
}

cards : Unit {0}
unfolding card_call sent_by sends swap_card from_panel to_panel info_panel action_item balance_text
    output_text busy_or busy fire pressed when token_selector token_items token_item swap_settings
    preset_item filtered_tokens filtered_by lower trim_start Swap.action Swap.has_amount has_text
    Swap.is_insufficient Swap.needs_approval Swap.amount_in_units parsed_amount is_positive
    float_or_zero Swap.balance_number parse_int to_string Swap.min_received Swap.mul_div
    Swap.handle_swap Swap.path Swap.token_addr rate fmt_bal amount_out_display
cards = tt

abbrev call : Swap.Call
call =
    Swap.swap_exact_tokens_for_eth 40 (pos 29700) (codes "0xU" ∷ codes "0xW" ∷ []) (codes "0xA")
      2200

-- The button is the item behind the two panels and the rate.
swaps : card_call whole print signed to_string tokens wecy.address hooks card (press 17) ≡ some call
unfolding cards
swaps = refl

card_call-IsSound_example : IsSound whole wecy.address hooks form call
card_call-IsSound_example =
    card_call-IsSound whole wecy.address print signed to_string tokens hooks card (press 17) call
      swaps

abbrev fixed_hooks : Hooks fixed
fixed_hooks = record {
  account = account;
  balance_out = none;
  slippage = 1;
  is_sending = false;
  is_confirming = true;
  now = 1000;
}

abbrev fixed_print : Print fixed
fixed_print = record {
  units = λ n d. n;
  over = λ a b. a / b;
  is_zero = λ a. a == 0;
  least = 0;
  to_locale = λ k a. to_string a;
}

-- The selector of the first token, a choice in it, the balance, the end of a transaction, the other
-- way round, and a text.
abbrev gestures : List (Hooks fixed × Option Gesture)
gestures =
    (fixed_hooks, some (press 5))
    ∷ (fixed_hooks, some (press 23))
    ∷ (fixed_hooks, some (press 4))
    ∷ (fixed_hooks, none)
    ∷ (fixed_hooks, some (press 7))
    ∷ (fixed_hooks, some (enter_text 6 (codes "1x.5")))
    ∷ []

run_card-IsKept_example :
    IsKept fixed tokens (run_card fixed fixed_print signed to_string tokens gestures card)
unfolding initial
run_card-IsKept_example =
    run_card-IsKept fixed fixed_print signed to_string tokens gestures card
      (λ n d. (refl, (refl, (refl, (refl, tt)))))
      (
        (usdt_ecy, (refl, (refl, tt))),
        (Memᴰ.tail (Memᴰ.tail (Memᴰ.head refl)), Memᴰ.head refl),
        omega arith,
      )
