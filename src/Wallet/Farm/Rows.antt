-- ===== src/Wallet/Farm/Rows.antt =====
-- The farm page and the pool page read the same pools.
use energy_chain.Shared.{ℕ, zero, suc, ◌≡◌, refl, ap, ◌∙◌, List, ◌∷◌, ◌++◌, Option, none, some, map}
use energy_chain.Shared.Text.{Text, codes}
use energy_chain.Wallet.Display.{Display}
use energy_chain.Wallet.Pool.{PoolInfo, Chain, ◌>>=◌, lp_of, fetch_pool, fetch_from, fetch_pools}
use energy_chain.Wallet.Farm.{FarmPool, share, fetch_farm, farms_from, fetch_farms}

abbrev map_some : {A B : Type 0} → (A → B) → Option A → Option B
map_some f none = none
map_some f (some a) = some (f a)

-- A step that both sides make.
same_step :
    {A B C : Type 0} (f : B → C) (m : Option A) (g : A → Option C) (k : A → Option B)
    → ((a : A) → g a ≡ map_some f (k a))
    → (m >>= g) ≡ map_some f (m >>= k)
same_step f none g k h = refl
same_step f (some a) g k h = h a

module _ (d : Display) where
  -- The row of a pool.
  abbrev pub farm_of : PoolInfo → FarmPool d
  farm_of p = record {
    pair_addr = p.pair_addr;
    label = p.token0_symbol ++ codes " / " ++ p.token1_symbol;
    reserve0 = d.to_locale 4 (d.units p.reserve0 18);
    reserve1 = d.to_locale 4 (d.units p.reserve1 18);
    total_lp = d.to_locale 4 (d.units p.total_supply 18);
    user_lp = d.to_locale 4 (d.units p.user_lp 18);
    user_lp_raw = d.units p.user_lp 18;
    share_percent = share d (d.units p.user_lp 18) (d.units p.total_supply 18);
  }

  fetch_farm-eq :
      (c : Chain) (account : Option Text) (i : ℕ)
      → fetch_farm d c account i ≡ map_some farm_of (fetch_pool c account i)
  unfolding fetch_farm fetch_pool
  fetch_farm-eq c account i = same_step farm_of (c.all_pairs i) _ _ (λ pair.
      same_step farm_of (c.token0 pair) _ _ (λ t0. same_step farm_of (c.token1 pair) _ _ (λ t1.
        same_step farm_of (c.get_reserves pair) _ _ (λ reserves.
          same_step farm_of (c.total_supply pair) _ _
            (λ supply. same_step farm_of (lp_of c pair account) _ _ (λ lp. refl))))))

  then_rest :
      (p : Option PoolInfo) (ps : Option (List PoolInfo))
      → (map_some farm_of p >>= λ farm. map_some (map farm_of) ps >>= λ farms. some (farm ∷ farms))
        ≡ map_some (map farm_of) (p >>= λ pool. ps >>= λ pools. some (pool ∷ pools))
  then_rest none ps = refl
  then_rest (some p) none = refl
  then_rest (some p) (some ps) = refl

  farms_from-eq :
      (c : Chain) (account : Option Text) (i n : ℕ)
      → farms_from d c account i n ≡ map_some (map farm_of) (fetch_from c account i n)
  unfolding farms_from fetch_from
  farms_from-eq c account i zero = refl
  farms_from-eq c account i (suc n) =
      rw (fetch_farm-eq c account i, farms_from-eq c account (suc i) n)
        (then_rest (fetch_pool c account i) (fetch_from c account (suc i) n))

  shown_eq :
      (len : Option ℕ) (c : Chain) (account : Option Text) (shown : List PoolInfo)
      → (elim (len >>= farms_from d c account 0) as (λ _. List (FarmPool d)) [
        | none ↦ map farm_of shown
        | some farms ↦ farms
      ])
        ≡ map farm_of (elim (len >>= fetch_from c account 0) as (λ _. List PoolInfo) [
          | none ↦ shown
          | some pools ↦ pools
        ])
  shown_eq none c account shown = refl
  shown_eq (some n) c account shown =
      ap (λ o. elim o as (λ _. List (FarmPool d)) [ none ↦ map farm_of shown | some farms ↦ farms ])
        (farms_from-eq c account 0 n)
      ∙ after (fetch_from c account 0 n)
    where
      after :
          (o : Option (List PoolInfo))
          → (elim (map_some (map farm_of) o) as (λ _. List (FarmPool d)) [
            | none ↦ map farm_of shown
            | some farms ↦ farms
          ])
            ≡ map farm_of (elim o as (λ _. List PoolInfo) [ none ↦ shown | some pools ↦ pools ])
      after none = refl
      after (some ps) = refl

-- On the same answers the farm page shows the pools of the pool page, each as its row, also where an
-- exception leaves both pages with what they showed before.
pub fetch_farms-eq :
    (d : Display) (c : Chain) (account : Option Text) (shown : List PoolInfo)
    → fetch_farms d c account (map (farm_of d) shown)
      ≡ map (farm_of d) (fetch_pools c account shown)
unfolding fetch_farms fetch_pools
fetch_farms-eq d c account shown = shown_eq d c.all_pairs_length c account shown
