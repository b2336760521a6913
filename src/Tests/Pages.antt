-- ===== src/Tests/Pages.antt =====
-- The swap card and the pool page, with whole numbers for the numbers.
use energy_chain.Shared.{
  ℕ, ◌*◌, ◌≡◌, ◌≢◌, refl, true, false, [], ◌∷◌, Option, none, some, ltb, length, arith, ◌⊎◌, ◌==◌,
  if◌then◌else◌,
}
use energy_chain.Shared.Int.{pos, sub_ℕ}
use energy_chain.Shared.Text.{codes}
use energy_chain.Shared.Number.{parse_int, to_string}
use energy_chain.Wallet.Units.{Units, Token, has_text, is_positive, float_or_zero, parsed_amount}
use energy_chain.Wallet.Settings.{Settings, custom, slippage_percent, parse_slippage}
use energy_chain.Wallet.Swap.{
  Form, Account, action, amount_in_units, min_received, has_amount, is_insufficient, balance_number,
  needs_approval, mul_div,
}
use energy_chain.Wallet.Pool
use energy_chain.Wallet.Pool.Liquidity.{offers, WithinFive, handle_add_liquidity-loose}
use energy_chain.Wallet.Pool.Listing.{AreFrom, fetch_pools-whole}

-- Whole numbers without decimals.
abbrev pub whole : Units
whole = record {
  F = ℕ;
  zero_f = 0;
  half = 1;
  less = λ a b. ltb a b;
  float_of = λ s. elim (parse_int s) as (λ _. Option ℕ) [ some (pos n) ↦ some n | _ ↦ none ];
  is_finite = λ a. true;
  parse_units = λ s d. elim (parse_int s) as (λ _. Option ℕ) [ some (pos n) ↦ some n | _ ↦ none ];
  format_units = λ n d. to_string n;
  basis_points = λ s. sub_ℕ 10000 (s * 100);
}

abbrev pub ecy : Token
ecy = record {
  address = codes "0x0";
  name = codes "ECY";
  symbol = codes "ECY";
  decimals = 18;
  is_native = true;
}

abbrev pub wecy : Token
wecy = record {
  address = codes "0xW";
  name = codes "WECY";
  symbol = codes "WECY";
  decimals = 18;
  is_native = false;
}

abbrev pub usdt : Token
usdt = record {
  address = codes "0xU";
  name = codes "USDT";
  symbol = codes "USDT";
  decimals = 18;
  is_native = false;
}

abbrev pub form : Form
form = record { token_in = usdt; token_out = ecy; amount_in = codes "40" }

abbrev pub account : Account
account = record {
  address = some (codes "0xA");
  is_connected = true;
  balance_in = some (50, 18);
  amount_out = some 30000;
  allowance = some 40;
}

card : Unit {0}
unfolding action has_amount has_text is_insufficient needs_approval amount_in_units parsed_amount
    is_positive float_or_zero balance_number parse_int to_string min_received mul_div
    slippage_percent parse_slippage
card = tt

some_amount : amount_in_units whole form ≢ 0
unfolding card
some_amount e = omega arith

pub usdt_ecy : usdt.address ≢ ecy.address
usdt_ecy e = ground arith

abbrev native_form : Form
native_form = record { token_in = ecy; token_out = usdt; amount_in = codes "1" }

ecy_wecy : ecy.address ≢ wecy.address
ecy_wecy e = ground arith

abbrev custom_settings : Settings
custom_settings = record { preset = custom; custom_slippage = codes "3"; deadline_minutes = pos 20 }

three_percent : slippage_percent whole custom_settings ≡ some 3
unfolding card
three_percent = refl

abbrev pub pool : Pool.PoolInfo
pool = record {
  pair_addr = codes "0xP";
  token0_addr = codes "0xU";
  token1_addr = codes "0xW";
  token0_symbol = codes "USDT";
  token1_symbol = codes "WECY";
  reserve0 = 500;
  reserve1 = 700;
  total_supply = 600;
  user_lp = 300;
}

handle_add_liquidity-loose_example :
    (c : Pool.Call) × (Pool.handle_add_liquidity wecy.address
        (some (codes "0xA"))
        ecy
        usdt
        500
        900
        1000
      ≡ some c)
    × ((offers c ≡ (500, Pool.min_amount 500) ∷ (900, Pool.min_amount 900) ∷ [])
        ⊎ (offers c ≡ (900, Pool.min_amount 900) ∷ (500, Pool.min_amount 500) ∷ []))
    × ¬ (WithinFive (500, Pool.min_amount 500))
    × ¬ (WithinFive (900, Pool.min_amount 900))
handle_add_liquidity-loose_example =
    handle_add_liquidity-loose wecy.address (codes "0xA") ecy usdt 500 900 1000 (λ e. omega arith)
      (λ e. omega arith)

-- A factory with two pairs.
abbrev chain : Pool.Chain
chain = record {
  all_pairs_length = some 2;
  all_pairs = λ i. some (if i == 0 then codes "0xP" else codes "0xQ");
  token0 = λ p. some (codes "0xU");
  token1 = λ p. some (codes "0xW");
  get_reserves = λ p. some (500, 700);
  total_supply = λ p. some 600;
  balance_of = λ p a. some 300;
  symbol = λ t. none;
}

fetch_pools-whole_example :
    let after = Pool.fetch_pools chain (some (codes "0xA")) (pool ∷ []) in
    (after ≡ pool ∷ []) ⊎ ((length after ≡ 2) × AreFrom chain (some (codes "0xA")) 0 after)
fetch_pools-whole_example = fetch_pools-whole chain (some (codes "0xA")) 2 (pool ∷ []) refl
