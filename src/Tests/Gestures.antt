-- ===== src/Tests/Gestures.antt =====
-- What the user does on the pool page and on the transfer page.
use energy_chain.Shared.{ℕ, ◌*◌, ◌/◌, true, false, List, [], ◌∷◌, Option, none, some, ltb}
use energy_chain.Shared.Int.{pos}
use energy_chain.Shared.Text.{Text, codes, lower}
use energy_chain.Shared.Number.{parse_int, to_string, trim_start}
use energy_chain.Wallet.Units.{is_positive, parsed_amount}
use energy_chain.Wallet.Display.{Display}
use energy_chain.Wallet.Markup.{Gesture, press, slide, fire, pressed, slid, when}
use energy_chain.Wallet.Selector.{filtered_tokens, filtered_by}
use energy_chain.Wallet.Selector.View.{token_selector, token_items, token_item}
use energy_chain.Wallet.Pool
use energy_chain.Wallet.Pool.Page.{no_amounts, pool_row, price_info, your_share, positions, toggle}
use energy_chain.Wallet.Pool.View.{Reading, State, Hooks, is_at, busy, busy_or, balance_text}
use energy_chain.Wallet.Pool.View.Panels.{
  position_items, all_positions, positions_panel, rate_lines, side_items, action_item, table_row,
  table_rows, pools_panel, form_action, form_panel, pool_page, parsed_a, parsed_b,
}
use energy_chain.Wallet.Pool.View.Events.{
  page_call, run_page, happens, changed_by, on_click, change_page, sends, sent_by,
}
use energy_chain.Tests.Pages.{ecy, usdt, pool}

-- Whole numbers.
abbrev pub display : Display
display = record {
  F = ℕ;
  zero_f = 0;
  hundred = 100;
  less = λ a b. ltb a b;
  over = λ a b. a / b;
  times = λ a b. a * b;
  units = λ n d. n;
  to_fixed = λ k a. to_string a;
  to_locale = λ k a. to_string a;
}

abbrev reading : Reading display
reading = record {
  half = 1;
  float_of = λ s. elim (parse_int s) as (λ _. Option ℕ) [ some (pos n) ↦ some n | _ ↦ none ];
  is_finite = λ a. true;
  parse_units = λ s d. elim (parse_int s) as (λ _. Option ℕ) [ some (pos n) ↦ some n | _ ↦ none ];
  format_units = λ n d. to_string n;
  basis_points = λ s. pos 9950;
}

abbrev scaled : ℕ → ℕ → ℕ → Text
scaled a b c = codes "2.50"

abbrev number : ℕ → ℕ
number n = n

-- An account with one position.
abbrev hooks : Hooks display
hooks = record {
  address = some (codes "0xA");
  is_connected = true;
  balance_a = none;
  balance_b = none;
  allowance_a = none;
  allowance_b = none;
  pair_reserves = none;
  pools = pool ∷ [];
  is_loading = false;
  is_pending = false;
  is_confirming = false;
  lp_allowance = λ pair. some 200;
  now = 1000;
}

abbrev begin : State
begin = record {
  page = record { token_a = ecy; token_b = usdt; amounts = no_amounts };
  sel = none;
  query = [];
  remove_pool_idx = none;
  remove_percent = 100;
}

-- The panel of the position is opened, and its slider moved.
abbrev steps : List (Hooks display × Option Gesture)
steps = (hooks, some (press 4)) ∷ (hooks, some (slide 5 50)) ∷ []

pages : Unit {0}
unfolding page_call run_page happens changed_by on_click change_page sends sent_by position_items
    all_positions positions_panel rate_lines side_items action_item table_row table_rows pools_panel
    form_action form_panel pool_page parsed_a parsed_b is_at busy busy_or balance_text pool_row
    price_info your_share positions toggle Pool.action Pool.needs_approval
    Pool.handle_remove_liquidity Pool.lp_to_remove Pool.pool_token_addr fire pressed slid when
    token_selector token_items token_item filtered_tokens filtered_by lower trim_start to_string
    parse_int parsed_amount is_positive
pages = tt

abbrev call : Pool.Call
call = Pool.remove_liquidity_eth (codes "0xU") 150 0 0 (codes "0xA") 2200
