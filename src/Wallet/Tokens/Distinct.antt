-- ===== src/Wallet/Tokens/Distinct.antt =====
-- No token is listed twice.
use energy_chain.Shared.{
  ℕ, zero, suc, ◌≡◌, refl, ap, sym, ◌∙◌, false, List, [], ◌∷◌, Option, none, some, map, subst, inl,
  inr, ◌⊎◌, arith, All,
}
use energy_chain.Shared.Text.{Text, codes, lower, lower_idem}
use energy_chain.Indexer.Pairs.{has, add}
use energy_chain.Indexer.Pairs.Tracked.{IsUnique, IsAddressSet, add-IsAddressSet}
use energy_chain.Wallet.Display.{Display}
use energy_chain.Wallet.Pool.{◌>>=◌}
use energy_chain.Wallet.Tokens.{
  TokenChain, PairData, read_pairs, balance_or, TokenRow, token_row, token_rows, fetch_tokens,
}

-- The value, if there is one, has the property.
abbrev Holds {ℓ} : {A : Type ℓ} → (A → Type 0) → Option A → Type 0
Holds P none = Unit
Holds P (some a) = P a

Holds-bind :
    {A B : Type 0} (P : B → Type 0) (m : Option A) (k : A → Option B)
    → ((a : A) → m ≡ some a → Holds P (k a))
    → Holds P (m >>= k)
Holds-bind P none k h = tt
Holds-bind P (some a) k h = h a refl

read_pairs-IsAddressSet :
    (c : TokenChain) (i n : ℕ) (tokens : List Text) (pairs : List PairData)
    → IsAddressSet tokens
    → Holds (λ (r : List Text × List PairData). IsAddressSet r.0) (read_pairs c i n tokens pairs)
unfolding read_pairs
read_pairs-IsAddressSet c i zero tokens pairs h = h
read_pairs-IsAddressSet c i (suc n) tokens pairs h = Holds-bind _ (c.all_pairs i) _ (λ pair _.
    Holds-bind _ (c.token0 pair) _ (λ t0 _. Holds-bind _ (c.token1 pair) _ (λ t1 _.
      Holds-bind _ (c.get_reserves pair) _ (λ reserves _.
        read_pairs-IsAddressSet c (suc i) n (add (add tokens (lower t0)) (lower t1)) _ (
          add-IsAddressSet _ (lower t1) (add-IsAddressSet tokens (lower t0) h (lower_idem t0))
            (lower_idem t1))))))

module _ (d : Display) (wecy : Text) (c : TokenChain) (account : Option Text) where
  abbrev pub addresses : List TokenRow → List Text
  addresses rows = map (λ r. r.address) rows

  token_row-address :
      (pairs : List PairData) (t : Text)
      → Holds (λ r. r.address ≡ t) (token_row d wecy c account pairs t)
  unfolding token_row
  token_row-address pairs t = Holds-bind _ (c.symbol t) _ (λ symbol _.
      Holds-bind _ (c.name t) _ (λ name _. Holds-bind _ (c.decimals t) _ (λ dec _.
        Holds-bind _ (c.total_supply t) _
          (λ supply _. Holds-bind _ (balance_or (c.balance_of t) account) _ (λ balance _. refl)))))

  -- The rows are those of some of the tokens, in their order.
  cons_cases :
      (o : Option TokenRow) (t : Text) (rest : List TokenRow)
      → Holds (λ r. r.address ≡ t) o
      → let rows = elim o as (λ _. List TokenRow) [ none ↦ rest | some row ↦ row ∷ rest ] in
        (addresses rows ≡ addresses rest) ⊎ (addresses rows ≡ t ∷ addresses rest)
  cons_cases none t rest h = inl refl
  cons_cases (some row) t rest h = inr (ap (λ a. a ∷ addresses rest) h)

  token_rows-has :
      (pairs : List PairData) (ts : List Text) (a : Text)
      → has ts a ≡ false
      → has (addresses (token_rows d wecy c account pairs ts)) a ≡ false
  unfolding token_rows has
  token_rows-has pairs [] a h = refl
  token_rows-has pairs (t ∷ ts) a h =
      let rest = token_rows-has pairs ts a (ground arith) in
      elim (cons_cases (token_row d wecy c account pairs t) t (token_rows d wecy c account pairs ts)
        (token_row-address pairs t)) [
          | inl e ↦ ap (λ l. has l a) e ∙ rest
          | inr e ↦ ap (λ l. has l a) e ∙ ground arith
        ]

  token_rows-IsUnique :
      (pairs : List PairData) (ts : List Text)
      → IsUnique ts
      → IsUnique (addresses (token_rows d wecy c account pairs ts))
  unfolding token_rows
  token_rows-IsUnique pairs [] h = tt
  token_rows-IsUnique pairs (t ∷ ts) (new, h) =
      let rest = token_rows-IsUnique pairs ts h in
      elim (cons_cases (token_row d wecy c account pairs t) t (token_rows d wecy c account pairs ts)
        (token_row-address pairs t)) [
          | inl e ↦ subst IsUnique (sym e) rest
          | inr e ↦ subst IsUnique (sym e) (token_rows-has pairs ts t new, rest)
        ]

  token_rows-All :
      (P : Text → Type 0) (pairs : List PairData) (ts : List Text)
      → All P ts
      → All P (addresses (token_rows d wecy c account pairs ts))
  unfolding token_rows
  token_rows-All P pairs [] h = tt
  token_rows-All P pairs (t ∷ ts) (low, h) =
      let rest = token_rows-All P pairs ts h in
      elim (cons_cases (token_row d wecy c account pairs t) t (token_rows d wecy c account pairs ts)
        (token_row-address pairs t)) [
          | inl e ↦ subst (All P) (sym e) rest
          | inr e ↦ subst (All P) (sym e) (low, rest)
        ]

  first_token : IsAddressSet (add [] (lower wecy))
  first_token = add-IsAddressSet [] (lower wecy) (tt, tt) (lower_idem wecy)

  -- The native token, and behind it tokens with different addresses without capital letters.
  abbrev pub IsListing : List TokenRow → Type 0
  IsListing [] = ⊥
  IsListing (row ∷ rows) =
      (row.address ≡ codes "native")
      × IsUnique (addresses rows)
      × All (λ a. lower a ≡ a) (addresses rows)

  fetch_tokens-Holds : Holds IsListing (fetch_tokens d wecy c account)
  unfolding fetch_tokens
  fetch_tokens-Holds = Holds-bind _ c.all_pairs_length _ (λ len _.
      Holds-bind _ (read_pairs c 0 len (add [] (lower wecy)) []) _ (λ found e.
        let set : IsAddressSet found.0 =
          subst (Holds (λ (r : List Text × List PairData). IsAddressSet r.0)) e
            (read_pairs-IsAddressSet c 0 len (add [] (lower wecy)) [] first_token) in
        Holds-bind _ (balance_or c.native_balance account) _ (λ native _. (
          refl,
          token_rows-IsUnique found.1 found.0 set.0,
          token_rows-All _ found.1 found.0 set.1,
        ))))

-- If the tokens are fetched, the native token comes first, and the rows behind it have addresses in
-- small letters that differ from each other, so that no two of them are one address in two spellings,
-- however often a token is in the pairs and however its address is written there.
pub fetch_tokens-IsListing :
    (d : Display) (wecy : Text) (c : TokenChain) (account : Option Text) (rows : List TokenRow)
    → fetch_tokens d wecy c account ≡ some rows
    → IsListing d wecy c account rows
fetch_tokens-IsListing d wecy c account rows e =
    subst (Holds (IsListing d wecy c account)) e (fetch_tokens-Holds d wecy c account)
