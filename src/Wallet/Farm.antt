-- ===== src/Wallet/Farm.antt =====
-- `fetchFarms` of dex-frontend/src/pages/FarmPage.tsx.
pub mod Rows
pub mod View
use energy_chain.Shared.{ℕ, zero, suc, Bool, List, [], ◌∷◌, ◌++◌, Option, none, some, if◌then◌else◌}
use energy_chain.Shared.Text.{Text, codes}
use energy_chain.Wallet.Display.{Display}
use energy_chain.Wallet.Pool.{Chain, ◌>>=◌, symbol_or, lp_of}

module _ (d : Display) where
  -- `FarmPool`
  pub record FarmPool : Type 0 where
    pub pair_addr : Text
    pub label : Text
    pub reserve0 : Text
    pub reserve1 : Text
    pub total_lp : Text
    pub user_lp : Text
    pub user_lp_raw : d.F
    pub share_percent : Text

  -- `share`
  unfoldable pub share : d.F → d.F → Text
  share user total =
      if d.less d.zero_f total
      then d.to_fixed 2 (d.times (d.over user total) d.hundred)
      else codes "0.00"

  -- One round of the loop.
  unfoldable pub fetch_farm : Chain → Option Text → ℕ → Option FarmPool
  unfolding share
  fetch_farm c account i = do
    pair ← c.all_pairs i
    t0 ← c.token0 pair
    t1 ← c.token1 pair
    reserves ← c.get_reserves pair
    supply ← c.total_supply pair
    lp ← lp_of c pair account
    some (record {
      pair_addr = pair;
      label = symbol_or (c.symbol t0) ++ codes " / " ++ symbol_or (c.symbol t1);
      reserve0 = d.to_locale 4 (d.units reserves.0 18);
      reserve1 = d.to_locale 4 (d.units reserves.1 18);
      total_lp = d.to_locale 4 (d.units supply 18);
      user_lp = d.to_locale 4 (d.units lp 18);
      user_lp_raw = d.units lp 18;
      share_percent = share (d.units lp 18) (d.units supply 18);
    })

  unfoldable pub farms_from : Chain → Option Text → ℕ → ℕ → Option (List FarmPool)
  farms_from c account i zero = some []
  farms_from c account i (suc n) = do
    farm ← fetch_farm c account i
    farms ← farms_from c account (suc i) n
    some (farm ∷ farms)

  -- The farms that are shown afterwards. An exception leaves the ones from before.
  unfoldable pub fetch_farms : Chain → Option Text → List FarmPool → List FarmPool
  fetch_farms c account shown = elim (c.all_pairs_length >>= farms_from c account 0) [
    | none ↦ shown
    | some farms ↦ farms
  ]
