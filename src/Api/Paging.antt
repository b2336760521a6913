-- ===== src/Api/Paging.antt =====
-- The pages of GET /pairs/:address/swaps.
use energy_chain.Shared.{
  min, ℕ, zero, suc, ◌+◌, ◌*◌, ◌≡◌, refl, ap, ap₂, ◌∙◌, List, [], ◌∷◌, ◌++◌, Option, none, some,
  take, drop, arith,
}
use energy_chain.Shared.Int.{ℤ, pos, min_ℤ, ◌-ℤ◌, ◌*ℤ◌, ◌≤ℤ◌}
use energy_chain.Shared.Text.{Text}
use energy_chain.Shared.Number.{to_string, parse_int-to_string}
use energy_chain.Indexer.Data.{SwapRow}
use energy_chain.Api.{parse_or, limit_of, SwapPage, pair_swaps, user_txs, pair_candles}

min-le : (a b : ℤ) → min_ℤ a b ≤ℤ b
min-le a b = ground arith

-- Whatever the texts of the request, none of the three routes takes more rows than its limit.
pub routes-limit :
    (address : Text) (page limit interval : Option Text)
    → ((pair_swaps address page limit).limit ≤ℤ pos 200)
      × ((pair_swaps address page limit).query.take ≡ some (pair_swaps address page limit).limit)
      × ((t : ℤ) × ((user_txs address limit).take ≡ some t) × (t ≤ℤ pos 200))
      × ((t : ℤ) × ((pair_candles address interval limit).take ≡ some t) × (t ≤ℤ pos 2000))
unfolding pair_swaps user_txs pair_candles
routes-limit address page limit interval = (
  min-le (parse_or limit (pos 50)) (pos 200),
  refl,
  (_, refl, min-le (parse_or limit (pos 50)) (pos 200)),
  (_, refl, min-le (parse_or limit (pos 500)) (pos 2000)),
)

parse_or-to_string : (n : ℕ) (other : ℤ) → parse_or (some (to_string (suc n))) other ≡ pos (suc n)
unfolding parse_or
parse_or-to_string n other = rw (parse_int-to_string (suc n), parse_or) (ground arith)

abbrev nothing : List SwapRow
nothing = []

take-nil : (n : ℕ) → take n (nothing) ≡ nothing
take-nil zero = refl
take-nil (suc n) = refl

suc_plus : (m n : ℕ) → suc (m + n) ≡ suc m + n
suc_plus m n = omega arith

take-append-take-drop :
    (m n : ℕ) (xs : List SwapRow) → take m xs ++ take n (drop m xs) ≡ take (m + n) xs
take-append-take-drop zero n xs = ap (λ k. take k xs) (omega arith)
take-append-take-drop (suc m) n [] = rw (take-nil n, take-nil (suc m + n))
take-append-take-drop (suc m) n (x ∷ xs) =
    ap (λ ys. x ∷ ys) (take-append-take-drop m n xs) ∙ ap (λ k. take k (x ∷ xs)) (suc_plus m n)

abbrev rows_at : (ℤ → ℤ → List SwapRow) → Option ℤ → Option ℤ → List SwapRow
rows_at find none t = []
rows_at find (some s) none = []
rows_at find (some s) (some t) = find s t

-- The rows of one answer: what the database gives for the query's `skip` and `take`.
abbrev pub page_rows : (ℤ → ℤ → List SwapRow) → SwapPage → List SwapRow
page_rows find p = rows_at find p.query.skip p.query.take

no_rows : (m : ℕ) → 0 ≡ 0 * m
no_rows m = omega arith

one_more : (n m : ℕ) → n * m + m ≡ suc n * m
one_more n m = omega arith

-- The first `n` pages, one after another, as a client asks for them by number.
pub pages : (ℤ → ℤ → List SwapRow) → Text → Option Text → ℕ → List SwapRow
pages find address limit zero = []
pages find address limit (suc n) =
    pages find address limit n
    ++ page_rows find (pair_swaps address (some (to_string (suc n))) limit)

pred_ℤ : (n : ℕ) → pos (suc n) -ℤ pos 1 ≡ pos n
pred_ℤ n = ground arith

times_ℤ : (a b : ℕ) → pos a *ℤ pos b ≡ pos (a * b)
times_ℤ a b = ground arith

min_pos : (a b : ℕ) → min_ℤ (pos a) (pos b) ≡ pos (min a b)
min_pos a b = ground arith

page_at :
    (address : Text) (n l : ℕ)
    → let p = pair_swaps address (some (to_string (suc n))) (some (to_string (suc l))) in
      (p.query.skip ≡ some (pos (n * min (suc l) 200)))
      × (p.query.take ≡ some (pos (min (suc l) 200)))
unfolding pair_swaps limit_of
page_at address n l =
    let page = parse_or-to_string n (pos 1) in
    let limit : limit_of (some (to_string (suc l))) (pos 50) (pos 200) ≡ pos (min (suc l) 200) =
      ap (λ k. min_ℤ k (pos 200)) (parse_or-to_string l (pos 50)) ∙ min_pos (suc l) 200 in
    let before : parse_or (some (to_string (suc n))) (pos 1) -ℤ pos 1 ≡ pos n =
      ap (λ k. k -ℤ pos 1) page ∙ pred_ℤ n in
    (ap₂ (λ a b. some (a *ℤ b)) before limit ∙ ap some (times_ℤ n (min (suc l) 200)), ap some limit)

-- Let the database answer `skip` and `take` by leaving out that many rows of one list and giving the
-- next ones. Then the pages 1 to `n` with the same positive limit are, one after another, the first
-- rows of that list: nothing is left out between two pages and nothing comes twice.
pub pages-eq-take :
    (find : ℤ → ℤ → List SwapRow) (all : List SwapRow) (address : Text) (l n : ℕ)
    → ((s t : ℕ) → find (pos s) (pos t) ≡ take t (drop s all))
    → pages find address (some (to_string (suc l))) n ≡ take (n * min (suc l) 200) all
unfolding pages
pages-eq-take find all address l zero h = ap (λ k. take k all) (no_rows (min (suc l) 200))
pages-eq-take find all address l (suc n) h =
    let m = min (suc l) 200 in
    let (skips, takes) = page_at address n l in
    let page : page_rows find
          (pair_swaps address (some (to_string (suc n))) (some (to_string (suc l))))
        ≡ take m (drop (n * m) all) =
      ap₂ (λ s t. rows_at find s t) skips takes ∙ h (n * m) m in
    ap₂ (λ xs ys. xs ++ ys) (pages-eq-take find all address l n h) page
    ∙ (take-append-take-drop (n * m) m all ∙ ap (λ k. take k all) (one_more n m))
