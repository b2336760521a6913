-- ===== src/Indexer/Pairs.antt =====
-- `loadExistingPairs`, `handlePairCreated` and `ensureToken`.
pub mod Tracked
pub mod Created
use energy_chain.Shared.{
  ℕ, Bool, true, false, ◌||◌, List, [], ◌∷◌, ◌++◌, Option, none, some, if◌then◌else◌,
}
use energy_chain.Shared.Text.{Text, codes, text_eq, lower}
use energy_chain.Indexer.Data.{
  Env, World, find_pairs, find_token, read_name, read_symbol, read_decimals, create_token,
  upsert_pair,
}
use energy_chain.Indexer.Action.{
  Action, pure, gets, catch, modify, ◌>>=◌, ◌>>◌, call, call_or, send, for_each,
}

-- `Set.has`
unfoldable pub has : List Text → Text → Bool
has [] a = false
has (b ∷ s) a = text_eq b a || has s a

-- `Set.add`: the order of insertion, and no item twice.
unfoldable pub add : List Text → Text → List Text
unfolding has
add s a = if has s a then s else s ++ a ∷ []

unfoldable pub track : Text → Action (Unit {0})
unfolding add
track addr = modify (λ w. record w { tracked_pairs = add w.tracked_pairs addr })

module _ (env : Env) where
  -- A pair of the database is tracked by its address in lower case.
  unfoldable pub load_existing_pairs : Action (Unit {0})
  unfolding lower
  load_existing_pairs = do
    pairs ← call find_pairs env.pairs_reply
    for_each (λ p. track (lower p)) pairs

  -- The `try` block of `ensureToken`.
  unfoldable pub register_token : Text → Action (Unit {0})
  register_token addr = do
    name ← call_or (read_name addr) (λ h. env.name_reply h addr) (codes "Unknown")
    symbol ← call_or (read_symbol addr) (λ h. env.symbol_reply h addr) (codes "???")
    decimals ← call_or (read_decimals addr) (λ h. env.decimals_reply h addr) 18
    send env (create_token addr name symbol decimals)

  unfoldable pub ensure_token : Text → Action (Unit {0})
  unfolding lower
  ensure_token address = do
    let addr = lower address
    exists ← call (find_token addr) (λ h. env.token_reply h addr)
    if exists
        then pure tt
        else catch (register_token addr)
            (send env (create_token addr (codes "Unknown") (codes "???") 18))

  unfoldable pub handle_pair_created : Text → Text → Text → ℕ → Action (Unit {0})
  unfolding has lower
  handle_pair_created token0 token1 pair_addr block_number = do
    let addr = lower pair_addr
    known ← gets (λ w. has w.tracked_pairs addr)
    if known then pure tt else do
      ensure_token token0
      ensure_token token1
      send env (upsert_pair addr (lower token0) (lower token1) block_number)
      track addr
