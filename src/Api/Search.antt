-- ===== src/Api/Search.antt =====
-- The queries of GET /search of dex-indexer/src/api/routes.ts, and the total of a page of swaps.
use energy_chain.Shared.{
  ℕ, zero, suc, ◌≡◌, refl, subst, true, ◌||◌, List, [], ◌∷◌, Option, none, some, take, length,
  ==_iff, arith,
}
use energy_chain.Shared.Int.{pos}
use energy_chain.Shared.Text.{Text, lower, starts_with, includes}
use energy_chain.Indexer.Data.{SwapRow}
use energy_chain.Api.{Query, pair_swaps}
use energy_chain.Price.Buckets.Grouping.{select}

-- A token, as far as the search selects it.
pub record TokenKey : Type 0 where
  pub address : Text
  pub symbol : Text
  pub name : Text

-- `tokens`; the mode "insensitive" compares in lower case.
unfoldable pub search_tokens : Text → Query TokenKey
search_tokens q = record {
  keep = λ t.
      includes (lower q) (lower t.symbol)
      || includes (lower q) (lower t.name)
      || starts_with q t.address;
  latest_by = none;
  skip = none;
  take = some (pos 10);
}

-- `pairs`, by their address.
unfoldable pub search_pairs : Text → Query Text
search_pairs q = record {
  keep = λ address. starts_with q address;
  latest_by = none;
  skip = none;
  take = some (pos 5);
}

-- GET /search: the two queries, and none for an empty text.
unfoldable pub search_queries : Option Text → Option (Query TokenKey × Query Text)
search_queries none = none
search_queries (some []) = none
search_queries (some (c ∷ q)) = some (search_tokens (lower (c ∷ q)), search_pairs (lower (c ∷ q)))

-- `total`, from all the swaps that are stored.
unfoldable pub total_swaps : Text → List SwapRow → ℕ
total_swaps address stored = length (select (pair_swaps address none none).query.keep stored)

starts_with-take : (n : ℕ) (s : Text) → starts_with (take n s) s ≡ true
starts_with-take zero s = refl
starts_with-take (suc n) [] = refl
starts_with-take (suc n) (c ∷ s) = ground (arith, starts_with-take n s, ==_iff c c)

-- A search for the beginning of an address, in whatever case it is written, keeps the pair that is
-- stored under this address in lower case.
search_pairs-keeps :
    (address : Text) (n c : ℕ) (q : Text) (queries : Query TokenKey × Query Text)
    → lower (c ∷ q) ≡ take n address
    → search_queries (some (c ∷ q)) ≡ some queries
    → queries.1.keep address ≡ true
unfolding search_queries search_pairs
search_pairs-keeps address n c q queries h e =
    subst (λ o. elim o as (λ _. Type 0) [ none ↦ Unit | some qs ↦ qs.1.keep address ≡ true ]) e
      (rw h (starts_with-take n address))
