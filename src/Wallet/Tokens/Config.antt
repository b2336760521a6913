-- ===== src/Wallet/Tokens/Config.antt =====
-- The tokens of dex-frontend/src/config/tokens.ts with the addresses of
-- dex-frontend/src/config/contracts.ts, and the pages as they are opened.
use mathlib.Core.List.{Memᴰ}
use energy_chain.Shared.{ℕ, ◌≢◌, refl, true, false, List, [], ◌∷◌, Option, none, some, arith}
use energy_chain.Shared.Text.{Text, codes}
use energy_chain.Wallet.Units.{Units, Token}
use energy_chain.Wallet.Settings.{initial}
use energy_chain.Wallet.Pool.Amounts.{IsAmount}
use energy_chain.Wallet.Pool.Page.{no_amounts}
use energy_chain.Wallet.Pool.View as PoolView
use energy_chain.Wallet.Transfer.View as TransferView
use energy_chain.Wallet.Transfer.View.{send_tab}
use energy_chain.Wallet.Markup.{Gesture}
use energy_chain.Wallet.Swap.Card.{Print}
use energy_chain.Wallet.Swap.View.{Card, Hooks, run_card}
use energy_chain.Wallet.Swap.View.Keeps.{IsKept, run_card-IsKept}
use energy_chain.Shared.Int.{ℤ}

-- What the build sets of `import.meta.env`.
pub record BuildEnv : Type 0 where
  pub vite_wecy : Option Text
  pub vite_usdt : Option Text

-- `x || text`
unfoldable pub or_default : Option Text → Text → Text
or_default none text = text
or_default (some []) text = text
or_default (some (c ∷ s)) text = c ∷ s

-- `CONTRACTS.WECY`
unfoldable pub wecy_address : BuildEnv → Text
wecy_address e = or_default e.vite_wecy (codes "0x8EE1ddb8E5082C75998c510fa50ec4286d7d926A")

unfoldable pub native_ecy : Token
native_ecy = record {
  address = codes "0xEeeeeEeeeEeEeeEeEeEeeEEEeeeeEeeeeeeeEEeE";
  name = codes "ECY";
  symbol = codes "ECY";
  decimals = 18;
  is_native = true;
}

unfoldable pub wecy_token : BuildEnv → Token
wecy_token e = record {
  address = wecy_address e;
  name = codes "Wrapped ECY";
  symbol = codes "WECY";
  decimals = 18;
  is_native = false;
}

unfoldable pub usdt_token : BuildEnv → Token
usdt_token e = record {
  address = or_default e.vite_usdt (codes "0xa626fa9678Ca32372cCd7fE5d45088B858a041b2");
  name = codes "Test USDT";
  symbol = codes "USDT";
  decimals = 18;
  is_native = false;
}

-- `TOKENS`
unfoldable pub default_tokens : BuildEnv → List Token
default_tokens e = native_ecy ∷ wecy_token e ∷ usdt_token e ∷ []

-- The swap card: `TOKENS[0]` and `TOKENS[2]`.
unfoldable pub opened_card : BuildEnv → Card
opened_card e = record {
  form = record { token_in = native_ecy; token_out = usdt_token e; amount_in = [] };
  selector_target = none;
  query = [];
  settings_open = false;
  settings = initial;
}

-- The pool page, with the same two tokens.
unfoldable pub opened_pool : BuildEnv → PoolView.State
opened_pool e = record {
  page = record { token_a = native_ecy; token_b = usdt_token e; amounts = no_amounts };
  sel = none;
  query = [];
  remove_pool_idx = none;
  remove_percent = 100;
}

-- The transfer page: `TOKENS[0]`.
unfoldable pub opened_transfer : TransferView.State
opened_transfer = record {
  tab = send_tab;
  token = native_ecy;
  fields = record { amount = []; recipient = [] };
  selector_open = false;
  query = [];
  copied = false;
}

opened_card-IsKept :
    (u : Units) (e : BuildEnv)
    → native_ecy.address ≢ (usdt_token e).address
    → IsKept u (default_tokens e) (opened_card e)
unfolding default_tokens opened_card initial
opened_card-IsKept u e ne =
    ((ne, tt), (Memᴰ.head refl, Memᴰ.tail (Memᴰ.tail (Memᴰ.head refl))), omega arith)

-- From the opening of the swap card on, whatever the user does on it, it keeps two tokens of the list
-- with different addresses, an amount of digits and dots, and a deadline between 1 and 180 minutes, if
-- the configured token is not the placeholder of the native one and viem prints with digits and dots.
opened_card-keeps :
    (u : Units) (e : BuildEnv) (print : Print u) (signed : ℤ → ℕ → Text) (number : u.F → Text)
    (steps : List (Hooks u × Option Gesture))
    → ((n d : ℕ) → IsAmount (u.format_units n d))
    → native_ecy.address ≢ (usdt_token e).address
    → IsKept u
        (default_tokens e)
        (run_card u print signed number (default_tokens e) steps (opened_card e))
opened_card-keeps u e print signed number steps printed ne =
    run_card-IsKept u print signed number (default_tokens e) steps (opened_card e) printed
      (opened_card-IsKept u e ne)
