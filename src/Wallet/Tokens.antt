-- ===== src/Wallet/Tokens.antt =====
-- `TokensPage` of dex-frontend/src/pages/TokensPage.tsx without its markup: the tokens of the pairs
-- with their prices, and the filter.
pub mod Config
pub mod Distinct
pub mod Price
pub mod View
use energy_chain.Shared.{
  ℕ, zero, suc, Bool, true, false, not, ◌&&◌, ◌||◌, List, [], ◌∷◌, ◌++◌, Option, none, some,
  if◌then◌else◌, foldl, reverse, ◌==◌,
}
use energy_chain.Shared.Text.{Text, codes, text_eq, lower, starts_with, includes}
use energy_chain.Shared.Number.{trim_start}
use energy_chain.Indexer.Pairs.{add}
use energy_chain.Wallet.Display.{Display}
use energy_chain.Wallet.Pool.{Chain, ◌>>=◌}

-- What the chain answers besides; `none` is an exception.
pub record TokenChain : Type 0 where
  pub chain : Chain
  pub open chain use *
  pub name : Text → Option Text
  pub decimals : Text → Option ℕ
  pub native_balance : Text → Option ℕ

-- An entry of `pairData`
pub record PairData : Type 0 where
  pub t0 : Text
  pub t1 : Text
  pub r0 : ℕ
  pub r1 : ℕ

-- The loop over the pairs, from the pair `i` on, for `n` pairs: `tokenSet` and `pairData`.
unfoldable pub read_pairs :
    TokenChain → ℕ → ℕ → List Text → List PairData → Option (List Text × List PairData)
read_pairs c i zero tokens pairs = some (tokens, pairs)
read_pairs c i (suc n) tokens pairs = do
  pair ← c.all_pairs i
  t0 ← c.token0 pair
  t1 ← c.token1 pair
  reserves ← c.get_reserves pair
  read_pairs c (suc i) n (add (add tokens (lower t0)) (lower t1))
      (pairs ++ record { t0 = t0; t1 = t1; r0 = reserves.0; r1 = reserves.1 } ∷ [])

-- The balance of the account, and 0 without one.
abbrev pub balance_or : (Text → Option ℕ) → Option Text → Option ℕ
balance_or balance none = some 0
balance_or balance (some account) = balance account

-- `TokenRow`
pub record TokenRow : Type 0 where
  pub address : Text
  pub symbol : Text
  pub name : Text
  pub decimals : ℕ
  pub total_supply : Text
  pub user_balance : Text
  pub price_in_usdt : Text

-- `s.trim()`
abbrev pub trim : Text → Text
trim s = reverse (trim_start (reverse (trim_start s)))

abbrev pub matches : Text → TokenRow → Bool
matches q t = includes (lower (trim q)) (lower t.symbol) || includes (lower (trim q)) (lower t.name)

abbrev pub keep_matching : Text → List TokenRow → List TokenRow
keep_matching q [] = []
keep_matching q (t ∷ ts) = if matches q t then t ∷ keep_matching q ts else keep_matching q ts

-- `filtered`
unfoldable pub filtered : Text → List TokenRow → List TokenRow
unfolding includes trim_start
filtered q tokens = elim (trim q) [ [] ↦ tokens | c ∷ s ↦ keep_matching q tokens ]

module _ (d : Display) (wecy : Text) where
  -- One round of the loop over `pairData` for a token with its decimals.
  unfoldable pub price_step : Text → ℕ → Text → PairData → Text
  price_step token dec shown p =
      let is_t0 = text_eq (lower p.t0) token in
      let is_t1 = text_eq (lower p.t1) token in
      let other = if is_t0 then lower p.t1 else lower p.t0 in
      let r_self = d.units (if is_t0 then p.r0 else p.r1) dec in
      let r_other = d.units (if is_t0 then p.r1 else p.r0) 18 in
      let ratio = d.to_fixed 4 (d.over r_other r_self) in
      if not is_t0 && not is_t1
      then shown
      else if d.less d.zero_f r_self && d.less d.zero_f r_other
      then if text_eq token (lower wecy)
        then ratio
        else if text_eq other (lower wecy)
        then ratio ++ codes " ECY"
        else ratio
      else shown

  -- `priceUsdt`
  unfoldable pub token_price : Text → ℕ → List PairData → Text
  unfolding price_step
  token_price token dec = foldl (price_step token dec) (codes "—")

  -- One round of the loop over `tokenSet`; `none` is the exception that is logged.
  unfoldable pub token_row : TokenChain → Option Text → List PairData → Text → Option TokenRow
  unfolding token_price
  token_row c account pairs token = do
    symbol ← c.symbol token
    name ← c.name token
    dec ← c.decimals token
    supply ← c.total_supply token
    balance ← balance_or (c.balance_of token) account
    some (record {
      address = token;
      symbol = symbol;
      name = name;
      decimals = dec;
      total_supply = d.to_locale 2 (d.units supply dec);
      user_balance = d.to_locale 6 (d.units balance dec);
      price_in_usdt = token_price token dec pairs;
    })

  -- The loop over `tokenSet`: a token that cannot be read is left out.
  unfoldable pub token_rows : TokenChain → Option Text → List PairData → List Text → List TokenRow
  token_rows c account pairs [] = []
  token_rows c account pairs (t ∷ ts) =
      let rest = token_rows c account pairs ts in
      elim (token_row c account pairs t) [ none ↦ rest | some row ↦ row ∷ rest ]

  -- One round of the loop for `ecyPrice`.
  unfoldable pub ecy_step : Text → PairData → Text
  ecy_step shown p =
      let is_t0 = text_eq (lower p.t0) (lower wecy) in
      let is_t1 = text_eq (lower p.t1) (lower wecy) in
      let r_wecy = d.units (if is_t0 then p.r0 else p.r1) 18 in
      let r_other = d.units (if is_t0 then p.r1 else p.r0) 18 in
      if is_t0 || is_t1
      then if d.less d.zero_f r_wecy then d.to_fixed 4 (d.over r_other r_wecy) else shown
      else shown

  unfoldable pub ecy_price : List PairData → Text
  unfolding ecy_step
  ecy_price = foldl ecy_step (codes "—")

  -- `fetchTokens` up to `setTokens`; `none` leaves the rows from before.
  unfoldable pub fetch_tokens : TokenChain → Option Text → Option (List TokenRow)
  fetch_tokens c account = do
    len ← c.all_pairs_length
    found ← read_pairs c 0 len (add [] (lower wecy)) []
    native ← balance_or c.native_balance account
    some (
        record {
          address = codes "native";
          symbol = codes "ECY";
          name = codes "EnergyChain Native Token";
          decimals = 18;
          total_supply = codes "—";
          user_balance = d.to_locale 6 (d.units native 18);
          price_in_usdt = ecy_price found.1;
        }
        ∷ token_rows c account found.1 found.0)
