-- ===== src/Wallet/Selector.antt =====
-- The filter of dex-frontend/src/components/common/TokenSelector.tsx, and the field for the deadline of
-- dex-frontend/src/components/swap/SwapSettings.tsx.
pub mod View
use energy_chain.Shared.{
  zero, suc, ◌≡◌, refl, ap, Bool, true, ◌||◌, List, [], ◌∷◌, Option, none, some, All, Bool-cases,
  inl, inr, if◌then◌else◌,
}
use energy_chain.Shared.Int.{ℤ, pos, negsuc}
use energy_chain.Shared.Text.{Text, lower, includes}
use energy_chain.Shared.Number.{parse_int, trim_start}
use energy_chain.Wallet.Units.{Token}
use energy_chain.Wallet.Tokens.{trim}
use energy_chain.Wallet.Settings.{Settings, set_deadline}

unfoldable pub token_matches : Text → Token → Bool
token_matches q t =
    includes q (lower t.symbol) || includes q (lower t.name) || includes q (lower t.address)

unfoldable pub matching_tokens : Text → List Token → List Token
matching_tokens q [] = []
matching_tokens q (t ∷ ts) =
    let rest = matching_tokens q ts in if token_matches q t then t ∷ rest else rest

-- `filtered` for a query that is in lower case and trimmed.
unfoldable pub filtered_by : Text → List Token → List Token
filtered_by [] tokens = tokens
filtered_by (c ∷ q) tokens = matching_tokens (c ∷ q) tokens

-- `filtered`
unfoldable pub filtered_tokens : Text → List Token → List Token
unfolding trim_start
filtered_tokens query tokens = filtered_by (lower (trim query)) tokens

-- `parseInt(e.target.value, 10) || 20`
unfoldable pub minutes_or : Option ℤ → ℤ
minutes_or none = pos 20
minutes_or (some (pos zero)) = pos 20
minutes_or (some (pos (suc n))) = pos (suc n)
minutes_or (some (negsuc n)) = negsuc n

unfoldable pub on_deadline_change : Text → Settings → Settings
unfolding minutes_or parse_int
on_deadline_change text s = set_deadline (minutes_or (parse_int text)) s

matching_tokens-All :
    (q : Text) (tokens : List Token)
    → All (λ t. token_matches q t ≡ true) (matching_tokens q tokens)
unfolding matching_tokens
matching_tokens-All q [] = tt
matching_tokens-All q (t ∷ ts) = elim (Bool-cases (token_matches q t)) [
  | inl fits ↦ rw fits (fits, matching_tokens-All q ts)
  | inr fails ↦ rw fails (matching_tokens-All q ts)
]

matching_tokens-same :
    (q : Text) (tokens : List Token)
    → All (λ t. token_matches q t ≡ true) tokens
    → matching_tokens q tokens ≡ tokens
unfolding matching_tokens
matching_tokens-same q [] h = refl
matching_tokens-same q (t ∷ ts) (fits, h) = rw fits (ap (λ l. t ∷ l) (matching_tokens-same q ts h))

filtered_by_idem :
    (q : Text) (tokens : List Token) → filtered_by q (filtered_by q tokens) ≡ filtered_by q tokens
unfolding filtered_by
filtered_by_idem [] tokens = refl
filtered_by_idem (c ∷ q) tokens =
    matching_tokens-same (c ∷ q) (matching_tokens (c ∷ q) tokens)
      (matching_tokens-All (c ∷ q) tokens)

-- Filtering once more by the same query keeps every token of the list that is shown.
filtered_tokens_idem :
    (query : Text) (tokens : List Token)
    → filtered_tokens query (filtered_tokens query tokens) ≡ filtered_tokens query tokens
unfolding filtered_tokens
filtered_tokens_idem query tokens = filtered_by_idem (lower (trim query)) tokens

module _ {κ} (P : Token → Type κ) where
  matching_tokens-keeps :
      (q : Text) (tokens : List Token) → All P tokens → All P (matching_tokens q tokens)
  unfolding matching_tokens
  matching_tokens-keeps q [] h = tt
  matching_tokens-keeps q (t ∷ ts) (p, h) = elim (Bool-cases (token_matches q t)) [
    | inl fits ↦ rw fits (p, matching_tokens-keeps q ts h)
    | inr fails ↦ rw fails (matching_tokens-keeps q ts h)
  ]

  filtered_by-keeps : (q : Text) (tokens : List Token) → All P tokens → All P (filtered_by q tokens)
  unfolding filtered_by
  filtered_by-keeps [] tokens h = h
  filtered_by-keeps (c ∷ q) tokens h = matching_tokens-keeps (c ∷ q) tokens h

  -- What holds of every token holds of those that are shown.
  pub filtered_tokens-keeps :
      (query : Text) (tokens : List Token) → All P tokens → All P (filtered_tokens query tokens)
  unfolding filtered_tokens
  filtered_tokens-keeps query tokens h = filtered_by-keeps (lower (trim query)) tokens h
