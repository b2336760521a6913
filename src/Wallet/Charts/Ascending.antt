-- ===== src/Wallet/Charts/Ascending.antt =====
-- The order of the candles.
use energy_chain.Shared.{
  subst, ℕ, ◌*◌, ◌/◌, ◌<◌, ◌≡◌, ◌≢◌, refl, ap, sym, not, List, [], ◌∷◌, some, map, leb, ◌==◌,
  Bool-cases, inl, inr, All, arith,
}
use energy_chain.Shared.Text.{Text}
use energy_chain.Price.Float.{Float}
use energy_chain.Wallet.Charts.Trades.{insert_by, sort_by, Trade}
use energy_chain.Wallet.Charts.Bars.{
  bucket_seconds, Bar, Bars, bar_at, put_trade, bars_of, sorted_keys, Row, chart_rows, chart,
}

-- Each number is smaller than all that follow.
abbrev pub IsAscending : List ℕ → Type 0
IsAscending [] = Unit
IsAscending (x ∷ xs) = All (λ y. x < y) xs × IsAscending xs

abbrev IsDistinct : List ℕ → Type 0
IsDistinct [] = Unit
IsDistinct (x ∷ xs) = All (λ y. y ≢ x) xs × IsDistinct xs

abbrev same_key : ℕ → ℕ
same_key k = k

insert_by-All :
    (P : ℕ → Type 0) (x : ℕ) (ys : List ℕ) → P x → All P ys → All P (insert_by same_key x ys)
unfolding insert_by
insert_by-All P x [] h k = (h, tt)
insert_by-All P x (y ∷ ys) h k = elim (Bool-cases (leb x y)) [
  | inl le ↦ rw le (h, k)
  | inr gt ↦ rw gt (k.0, insert_by-All P x ys h k.1)
]

All-trans : (x y : ℕ) (zs : List ℕ) → x < y → All (λ z. y < z) zs → All (λ z. x < z) zs
All-trans x y [] h k = tt
All-trans x y (z ∷ zs) h k = (omega (arith, k.0), All-trans x y zs h k.1)

insert_by-IsAscending :
    (x : ℕ) (ys : List ℕ)
    → All (λ y. y ≢ x) ys
    → IsAscending ys
    → IsAscending (insert_by same_key x ys)
unfolding insert_by
insert_by-IsAscending x [] h k = (tt, tt)
insert_by-IsAscending x (y ∷ ys) (ne, h) (low, k) = elim (Bool-cases (leb x y)) [
  | inl le ↦ rw le ((ground arith, All-trans x y ys (ground arith) low), (low, k))
  | inr gt ↦
      rw gt (insert_by-All (λ z. y < z) x ys (ground arith) low, insert_by-IsAscending x ys h k)
]

sort_by-All : (P : ℕ → Type 0) (xs : List ℕ) → All P xs → All P (sort_by same_key xs)
unfolding sort_by
sort_by-All P [] h = tt
sort_by-All P (x ∷ xs) h = insert_by-All P x (sort_by same_key xs) h.0 (sort_by-All P xs h.1)

sort_by-IsAscending : (xs : List ℕ) → IsDistinct xs → IsAscending (sort_by same_key xs)
unfolding sort_by
sort_by-IsAscending [] h = tt
sort_by-IsAscending (x ∷ xs) (new, h) =
    insert_by-IsAscending x (sort_by same_key xs) (sort_by-All _ xs new) (sort_by-IsAscending xs h)

module _ (num : Float) (units : ℕ → num.F) where
  abbrev keys : Bars num units → List ℕ
  keys m = map (λ e. e.0) m

  put_trade-All :
      (P : ℕ → Type 0) (k : ℕ) (t : Trade num units) (m : Bars num units)
      → P k
      → All P (keys m)
      → All P (keys (put_trade num units k t m))
  unfolding put_trade
  put_trade-All P k t [] h all = (h, tt)
  put_trade-All P k t ((u, b) ∷ m) h all = elim (Bool-cases (u == k)) [
    | inl same ↦ rw same all
    | inr other ↦ rw other (all.0, put_trade-All P k t m h all.1)
  ]

  put_trade-IsDistinct :
      (k : ℕ) (t : Trade num units) (m : Bars num units)
      → IsDistinct (keys m)
      → IsDistinct (keys (put_trade num units k t m))
  unfolding put_trade
  put_trade-IsDistinct k t [] h = (tt, tt)
  put_trade-IsDistinct k t ((u, b) ∷ m) (new, h) = elim (Bool-cases (u == k)) [
    | inl same ↦ rw same (new, h)
    | inr other ↦
        rw other (put_trade-All (λ y. y ≢ u) k t m (ground arith) new, put_trade-IsDistinct k t m h)
  ]

  bars_of-IsDistinct :
      (seconds : ℕ) (m : Bars num units) (ts : List (Trade num units))
      → IsDistinct (keys m)
      → IsDistinct (keys (bars_of num units seconds m ts))
  unfolding bars_of
  bars_of-IsDistinct seconds m [] h = h
  bars_of-IsDistinct seconds m (t ∷ ts) h =
      let k = t.timestamp / seconds * seconds in
      bars_of-IsDistinct seconds (put_trade num units k t m) ts (put_trade-IsDistinct k t m h)

  -- The key has a bucket.
  abbrev Present : Bars num units → ℕ → Type 0
  Present m k = (b : Bar num units) × (bar_at num units m k ≡ some b)

  Present-cons :
      (u : ℕ) (b : Bar num units) (m : Bars num units) (k : ℕ)
      → Present m k
      → Present ((u, b) ∷ m) k
  unfolding bar_at
  Present-cons u b m k (c, e) = elim (Bool-cases (u == k)) [
    | inl same ↦ (b, rw same refl)
    | inr other ↦ (c, rw other e)
  ]

  All-Present-cons :
      (u : ℕ) (b : Bar num units) (m : Bars num units) (ks : List ℕ)
      → All (Present m) ks
      → All (Present ((u, b) ∷ m)) ks
  All-Present-cons u b m [] h = tt
  All-Present-cons u b m (k ∷ ks) h = (Present-cons u b m k h.0, All-Present-cons u b m ks h.1)

  Present-head : (u : ℕ) (b : Bar num units) (m : Bars num units) → Present ((u, b) ∷ m) u
  unfolding bar_at
  Present-head u b m = (b, ground arith)

  keys-Present : (m : Bars num units) → All (Present m) (keys m)
  keys-Present [] = tt
  keys-Present ((u, b) ∷ m) = (Present-head u b m, All-Present-cons u b m (keys m) (keys-Present m))

  abbrev pub times : List (Row num units) → List ℕ
  times rows = map (λ r. r.time) rows

  chart_rows-Present :
      (m : Bars num units) (ks : List ℕ)
      → All (Present m) ks
      → (rows : List (Row num units)) × (chart_rows num units m ks ≡ some rows) × (times rows ≡ ks)
  unfolding chart_rows
  chart_rows-Present m [] h = ([], refl, refl)
  chart_rows-Present m (k ∷ ks) ((b, e), h) =
      let (rows, f, g) = chart_rows-Present m ks h in
      (
        record { time = k; bar = b; is_up = not (num.less b.close b.open_price) } ∷ rows,
        rw (e, chart_rows) (rw f refl),
        ap (λ l. k ∷ l) g,
      )

-- The chart of any trades has its rows: no key is without its bucket, and the times of the rows
-- ascend strictly.
pub chart-IsAscending :
    (num : Float) (units : ℕ → num.F) (interval : Text) (trades : List (Trade num units))
    → (rows : List (Row num units)) × (chart num units interval trades ≡ some rows)
      × IsAscending (times num units rows)
unfolding chart sorted_keys
chart-IsAscending num units interval trades =
    let m = bars_of num units (bucket_seconds interval) [] trades in
    let (rows, e, f) =
      chart_rows-Present num units m (sorted_keys num units m)
        (sort_by-All _ (keys num units m) (keys-Present num units m)) in
    (
      rows,
      e,
      subst IsAscending (sym f) (
          sort_by-IsAscending (keys num units m)
            (bars_of-IsDistinct num units (bucket_seconds interval) [] trades tt)),
    )
