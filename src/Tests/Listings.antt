-- ===== src/Tests/Listings.antt =====
-- The farm, the tokens and the portfolio on a factory with two pairs, with whole numbers.
use energy_chain.Shared.{
  ℕ, ◌*◌, ◌/◌, ◌≤◌, ◌≡◌, refl, List, [], ◌∷◌, none, some, ltb, ◌==◌, All, length, if◌then◌else◌,
}
use energy_chain.Shared.Text.{codes, lower}
use energy_chain.Shared.Number.{to_string}
use energy_chain.Wallet.Display.{Display}
use energy_chain.Wallet.Pool.{Chain, PoolInfo}
use energy_chain.Wallet.Tokens.{TokenChain, TokenRow, read_pairs, fetch_tokens}
use energy_chain.Wallet.Tokens.Distinct.{IsListing, fetch_tokens-IsListing}
use energy_chain.Shared.{map}
use energy_chain.Wallet.Pool.{fetch_pools}
use energy_chain.Wallet.Farm.{fetch_farms}
use energy_chain.Wallet.Farm.Rows.{farm_of, fetch_farms-eq}
use energy_chain.Wallet.Portfolio.{
  SwapLog, PortfolioChain, involves, tx_record, log_txs, all_txs, latest_first, recent_txs,
}
use energy_chain.Wallet.Charts.Trades.{trades_from}
use energy_chain.Wallet.Portfolio.Recent.{IsLatestFirst, IsOwn, recent_txs-IsOwn}

abbrev plain : Display
plain = record {
  F = ℕ;
  zero_f = 0;
  hundred = 100;
  less = λ a b. ltb a b;
  over = λ a b. a / b;
  times = λ a b. a * b;
  units = λ n d. n;
  to_fixed = λ k x. to_string x;
  to_locale = λ k x. to_string x;
}

abbrev market : Chain
market = record {
  all_pairs_length = some 2;
  all_pairs = λ i. some (if i == 0 then codes "0xP" else codes "0xQ");
  token0 = λ p. some (codes "0xU");
  token1 = λ p. some (codes "0xW");
  get_reserves = λ p. some (500, 700);
  total_supply = λ p. some 600;
  balance_of = λ p a. some 300;
  symbol = λ t. some (codes "USDT");
}

abbrev shown : List PoolInfo
shown = []

abbrev tokens : TokenChain
tokens = record {
  chain = market;
  name = λ t. some (codes "Tether");
  decimals = λ t. some 18;
  native_balance = λ a. some 9;
}

abbrev listed : List TokenRow
listed = elim (fetch_tokens plain (codes "0xW") tokens none) [ none ↦ [] | some rows ↦ rows ]

listing_shown : fetch_tokens plain (codes "0xW") tokens none ≡ some listed
unfolding fetch_tokens read_pairs
listing_shown = refl

fetch_tokens-IsListing_example : IsListing plain (codes "0xW") tokens none listed
fetch_tokens-IsListing_example =
    fetch_tokens-IsListing plain (codes "0xW") tokens none listed listing_shown

abbrev swap_log : SwapLog
swap_log = record {
  sender = some (codes "0xA");
  to = none;
  transaction_hash = some (codes "0x12345678");
  block_number = some 4;
}

abbrev activity : PortfolioChain
activity = record {
  chain = market;
  decimals = λ t. some 18;
  block_number = some 5;
  logs = λ p from to. some (swap_log ∷ []);
  block_time = λ n. some 1000;
}

recent_txs-IsOwn_example :
    let txs =
      recent_txs plain to_string
        (codes "0xW")
        (codes "0xU")
        activity
        (codes "0xa")
        (codes "0xP" ∷ codes "0xQ" ∷ [])
        5 in
    (length txs ≤ 20)
    × IsLatestFirst txs
    × All (IsOwn activity to_string (codes "0xa") 0 5 (codes "0xP" ∷ codes "0xQ" ∷ [])) txs
unfolding trades_from
recent_txs-IsOwn_example =
    recent_txs-IsOwn plain to_string (codes "0xW") (codes "0xU") activity (codes "0xa")
      (codes "0xP" ∷ codes "0xQ" ∷ []) 5

-- Both pairs have the swap of the account, whose address is written in another case.
two_swaps :
    length (
      recent_txs plain to_string
        (codes "0xW")
        (codes "0xU")
        activity
        (codes "0xa")
        (codes "0xP" ∷ codes "0xQ" ∷ [])
        5)
    ≡ 2
unfolding recent_txs latest_first all_txs log_txs involves lower tx_record
two_swaps = refl

-- The pools of the market as rows of the farm page.
fetch_farms-eq_example :
    fetch_farms plain market (some (codes "0xA")) (map (farm_of plain) [])
    ≡ map (farm_of plain) (fetch_pools market (some (codes "0xA")) [])
fetch_farms-eq_example = fetch_farms-eq plain market (some (codes "0xA")) []
