-- ===== src/Tests/Routes.antt =====
-- The routes on two rows.
use energy_chain.Shared.{
  ℕ, ◌*◌, ◌≡◌, ◌≢◌, refl, false, List, [], ◌∷◌, none, some, min, take, drop, arith,
}
use energy_chain.Shared.Int.{ℤ, pos, negsuc}
use energy_chain.Shared.Text.{codes, lower}
use energy_chain.Shared.Number.{to_string, parse_int}
use energy_chain.Indexer.Data.{SwapRow}
use energy_chain.Indexer.Events.{swap_row}
use energy_chain.Api.{user_txs, limit_of, parse_or}
use energy_chain.Api.Paging.{pages, pages-eq-take}
use energy_chain.Api.Users.{user_txs-misses}
use energy_chain.Tests.Node.{pair, swap_log, swap_args}

abbrev row : ℕ → SwapRow
row time = swap_row pair swap_log swap_args time

abbrev stored : List SwapRow
stored = row 3 ∷ row 2 ∷ row 1 ∷ []

-- A database that leaves out and takes what it is told.
abbrev find_rows : ℤ → ℤ → List SwapRow
find_rows (pos s) (pos t) = take t (drop s stored)
find_rows (pos s) (negsuc t) = []
find_rows (negsuc s) t = []

-- What is not a number, and 0, give the default; a negative number stays.
limits :
    (limit_of (some (codes "abc")) (pos 50) (pos 200) ≡ pos 50)
    × (limit_of (some (codes "0")) (pos 50) (pos 200) ≡ pos 50)
    × (limit_of (some (codes "1000")) (pos 50) (pos 200) ≡ pos 200)
    × (limit_of (some (codes "-7")) (pos 50) (pos 200) ≡ negsuc 6)
unfolding limit_of parse_or parse_int
limits = (refl, refl, refl, refl)

pages-eq-take_example : pages find_rows pair (some (to_string 2)) 2 ≡ take (2 * min 2 200) stored
pages-eq-take_example = pages-eq-take find_rows stored pair 1 2 (λ s t. refl)

sender_mixed : lower (codes "0xS") ≢ codes "0xS"
unfolding lower
sender_mixed e = ground arith

to_mixed : lower (codes "0xT") ≢ codes "0xT"
unfolding lower
to_mixed e = ground arith

user_txs-misses_example :
    (user_txs (codes "0xS") none).keep (swap_row pair swap_log swap_args 3) ≡ false
user_txs-misses_example =
    user_txs-misses pair swap_log swap_args 3 (codes "0xS") none sender_mixed to_mixed

pair_lower : lower pair ≡ pair
unfolding lower
pair_lower = refl

address_lower : lower (codes "0xAB") ≡ pair
unfolding lower
address_lower = refl
