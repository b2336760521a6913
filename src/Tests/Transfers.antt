-- ===== src/Tests/Transfers.antt =====
-- What the user does on the transfer page.
use energy_chain.Shared.{◌≡◌, refl, Bool, true, false, List, [], ◌∷◌, none, some}
use energy_chain.Shared.Text.{Text, codes, lower}
use energy_chain.Shared.Number.{parse_int, to_string, trim_start}
use energy_chain.Wallet.Units.{is_positive}
use energy_chain.Wallet.Markup.{press, enter_text, fire, pressed, entered, when}
use energy_chain.Wallet.Selector.{filtered_tokens, filtered_by}
use energy_chain.Wallet.Selector.View.{token_selector, token_items, token_item}
use energy_chain.Wallet.Pool.Amounts.{clean}
use energy_chain.Wallet.Transfer.{sent, native_to, handle_send, bal_display}
use energy_chain.Wallet.Transfer.View.{
  State, Hooks, send_tab, gesture, Happening, transfer_page, tabs, send_panel, send_form,
  receive_panel, is_send, busy, run_transfer, happens, changed_by, on_click, transfer_call,
  outcome_of,
}
use energy_chain.Wallet.Transfer.View.Sends.{MaySend, IsTransfer, transfer_call-IsTransfer}
use energy_chain.Tests.Pages.{whole, ecy}
use energy_chain.Tests.Clicks.{tokens}
use energy_chain.Tests.Gestures.{display}

abbrev hooks : Hooks
hooks = record {
  address = some (codes "0xA");
  is_connected = true;
  bal = none;
  native_pending = false;
  native_confirming = false;
  erc20_pending = false;
  erc20_confirming = false;
  clipboard = true;
}

abbrev begin : State
begin = record {
  tab = send_tab;
  token = ecy;
  fields = record { amount = []; recipient = [] };
  selector_open = false;
  query = [];
  copied = false;
}

-- An amount with a letter, and a recipient.
abbrev steps : List (Hooks × Happening)
steps =
    (hooks, gesture (enter_text 8 (codes "7x")))
    ∷ (hooks, gesture (enter_text 10 (codes "0xB")))
    ∷ []

pages : Unit {0}
unfolding transfer_page tabs send_panel send_form receive_panel is_send busy run_transfer happens
    changed_by on_click transfer_call outcome_of handle_send is_positive clean fire pressed entered
    when token_selector token_items token_item filtered_tokens filtered_by lower trim_start
    to_string parse_int bal_display
pages = tt

abbrev ready : State
ready = run_transfer whole display tokens steps begin

abbrev any_address : Text → Bool
any_address a = true

sends_seven :
    transfer_call whole display tokens any_address hooks ready (press 11)
    ≡ some (sent (native_to (codes "0xB") 7))
unfolding pages
sends_seven = refl

transfer_call-IsTransfer_example :
    MaySend hooks ready × IsTransfer whole any_address ready (native_to (codes "0xB") 7)
transfer_call-IsTransfer_example =
    transfer_call-IsTransfer whole display tokens any_address hooks ready (press 11)
      (native_to (codes "0xB") 7) sends_seven
