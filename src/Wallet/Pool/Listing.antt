-- ===== src/Wallet/Pool/Listing.antt =====
-- The pools that the page lists.
use energy_chain.Shared.{
  ℕ, zero, suc, ◌≡◌, refl, ap, sym, subst, List, [], ◌∷◌, Option, none, some, inl, inr, ◌⊎◌, length,
}
use energy_chain.Shared.Text.{Text}
use energy_chain.Wallet.Pool.{PoolInfo, Chain, ◌>>=◌, fetch_pool, fetch_from, fetch_pools}

module _ (c : Chain) (account : Option Text) where
  -- The pools are those of the pairs from `i` on, one for each pair, in their order.
  abbrev pub AreFrom : ℕ → List PoolInfo → Type 0
  AreFrom i [] = Unit
  AreFrom i (p ∷ ps) = (fetch_pool c account i ≡ some p) × AreFrom (suc i) ps

  abbrev Fetched : ℕ → ℕ → Option (List PoolInfo) → Type 0
  Fetched i n none = Unit
  Fetched i n (some ps) = (length ps ≡ n) × AreFrom i ps

  Fetched-cons :
      (i n : ℕ) (p : Option PoolInfo) (ps : Option (List PoolInfo))
      → fetch_pool c account i ≡ p
      → Fetched (suc i) n ps
      → Fetched i (suc n) (p >>= λ pool. ps >>= λ pools. some (pool ∷ pools))
  Fetched-cons i n none ps e h = tt
  Fetched-cons i n (some p) none e h = tt
  Fetched-cons i n (some p) (some ps) e h = (ap suc h.0, (e, h.1))

  fetch_from-Fetched : (i n : ℕ) → Fetched i n (fetch_from c account i n)
  unfolding fetch_from
  fetch_from-Fetched i zero = (refl, tt)
  fetch_from-Fetched i (suc n) =
      Fetched-cons i n (fetch_pool c account i) (fetch_from c account (suc i) n) refl
        (fetch_from-Fetched (suc i) n)

  shown_after :
      (n : ℕ) (shown : List PoolInfo) (r : Option (List PoolInfo))
      → Fetched 0 n r
      → let after = elim r as (λ _. List PoolInfo) [ none ↦ shown | some pools ↦ pools ] in
        (after ≡ shown) ⊎ ((length after ≡ n) × AreFrom 0 after)
  shown_after n shown none h = inl refl
  shown_after n shown (some ps) h = inr h

-- Listing the pools is all or nothing. Where the factory has `n` pairs, the page shows the pools from
-- before, or exactly `n` pools, the one at each place read from the pair of the factory at that place.
pub fetch_pools-whole :
    (c : Chain) (account : Option Text) (n : ℕ) (shown : List PoolInfo)
    → c.all_pairs_length ≡ some n
    → let after = fetch_pools c account shown in
      (after ≡ shown) ⊎ ((length after ≡ n) × AreFrom c account 0 after)
unfolding fetch_pools
fetch_pools-whole c account n shown e =
    subst
      (λ (len : Option ℕ).
        let after = (elim (len >>= fetch_from c account 0) as (λ _. List PoolInfo) [
          | none ↦ shown
          | some pools ↦ pools
        ]) in
        (after ≡ shown) ⊎ ((length after ≡ n) × AreFrom c account 0 after))
      (sym e)
      (shown_after c account n shown (fetch_from c account 0 n) (fetch_from-Fetched c account 0 n))
