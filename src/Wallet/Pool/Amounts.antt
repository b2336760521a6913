-- ===== src/Wallet/Pool/Amounts.antt =====
-- The two amounts of the form: what is typed, and what is filled in from the reserves of the pair.
use energy_chain.Shared.{
  ℕ, ◌≡◌, ◌≢◌, refl, sym, ◌∙◌, Bool, true, false, ◌&&◌, ◌||◌, List, [], ◌∷◌, Option, none, some,
  leb, ◌==◌, if◌then◌else◌, Bool-cases, inl, inr, ◌⊎◌, All,
}
use energy_chain.Shared.Text.{Text, codes, text_eq, text_eq_iff, lower}
use energy_chain.Wallet.Units.{Units}
use energy_chain.Wallet.Pool.{◌>>=◌}

-- `val.replace(/[^0-9.]/g, "")`
unfoldable pub clean : Text → Text
clean [] = []
clean (c ∷ s) =
    let rest = clean s in if (leb b'0' c && leb c b'9') || (c == b'.') then c ∷ rest else rest

-- The two amounts, as they are typed and filled in.
pub record Amounts : Type 0 where
  pub amount_a : Text
  pub amount_b : Text

-- The amounts of the pair that the factory has for the two tokens.
pub record PairReserves (F : Type 0) : Type 0 where
  pub r_a : F
  pub r_b : F

-- What the factory and the pair answer in `fetchPairReserves`; `none` is an exception.
pub record PairChain : Type 0 where
  pub get_pair : Text → Text → Option Text
  pub pair_token0 : Text → Option Text
  pub pair_reserves : Text → Option (ℕ × ℕ)

-- `!pairAddr || pairAddr === "0x0000000000000000000000000000000000000000"`
unfoldable pub no_pair : Text → Bool
no_pair [] = true
no_pair (c ∷ s) = text_eq (c ∷ s) (codes "0x0000000000000000000000000000000000000000")

-- `fetchPairReserves`; `units` is `parseFloat(formatUnits(r, 18))`.
unfoldable pub fetch_pair_reserves :
    {F : Type 0} → (ℕ → F) → PairChain → Text → Text → Option (PairReserves F)
unfolding no_pair
fetch_pair_reserves units c token_a token_b = do
  pair ← c.get_pair token_a token_b
  if no_pair pair then none else do
    token0 ← c.pair_token0 pair
    reserves ← c.pair_reserves pair
    let a_is_token0 = text_eq (lower token_a) (lower token0)
    some (record {
      r_a = units (if a_is_token0 then reserves.0 else reserves.1);
      r_b = units (if a_is_token0 then reserves.1 else reserves.0);
    })

-- `scaled x y z` is `((x * y) / z).toFixed(6)`.
module _ (u : Units) (scaled : u.F → u.F → u.F → Text) where
  -- The other amount, after a change of one amount to `cleaned`, at the reserves of the two.
  unfoldable pub paired : Text → u.F → u.F → Text → Text
  paired cleaned r_own r_other other =
      if u.less u.zero_f r_own
      then elim (u.float_of cleaned) [
        | none ↦ []
        | some n ↦ if u.less u.zero_f n then scaled n r_other r_own else []
      ]
      else other

  unfoldable pub handle_amount_a_change : Option (PairReserves u.F) → Text → Amounts → Amounts
  unfolding clean
  handle_amount_a_change none val s = record s { amount_a = clean val }
  handle_amount_a_change (some r) val s = record {
    amount_a = clean val;
    amount_b = paired (clean val) r.r_a r.r_b s.amount_b;
  }

  unfoldable pub handle_amount_b_change : Option (PairReserves u.F) → Text → Amounts → Amounts
  unfolding clean
  handle_amount_b_change none val s = record s { amount_b = clean val }
  handle_amount_b_change (some r) val s = record {
    amount_b = clean val;
    amount_a = paired (clean val) r.r_b r.r_a s.amount_a;
  }

-- A typed or a filled in amount.
abbrev IsAmountUnit : ℕ → Type 0
IsAmountUnit c = ((leb b'0' c && leb c b'9') || (c == b'.')) ≡ true

-- Only digits and dots.
abbrev pub IsAmount : Text → Type 0
IsAmount s = All IsAmountUnit s

pub clean-IsAmount : (s : Text) → IsAmount (clean s)
unfolding clean
clean-IsAmount [] = tt
clean-IsAmount (c ∷ s) = elim (Bool-cases ((leb b'0' c && leb c b'9') || (c == b'.'))) [
  | inl kept ↦ rw kept (kept, clean-IsAmount s)
  | inr other ↦ rw other (clean-IsAmount s)
]

-- What the user types into one of the two fields.
pub data Edit : Type 0 where
  typed_a typed_b : Text → Edit

module _ (u : Units) (scaled : u.F → u.F → u.F → Text) where
  unfoldable pub edit : Option (PairReserves u.F) → Edit → Amounts → Amounts
  unfolding handle_amount_a_change handle_amount_b_change
  edit r (typed_a val) = handle_amount_a_change u scaled r val
  edit r (typed_b val) = handle_amount_b_change u scaled r val

  -- Each edit comes with the reserves at that time.
  unfoldable pub edits : List (Option (PairReserves u.F) × Edit) → Amounts → Amounts
  edits [] s = s
  edits ((r, e) ∷ es) s = edits es (edit r e s)

other-false : (a b t : Text) → a ≢ b → t ≡ a → text_eq b t ≡ false
other-false a b t ne e = elim (Bool-cases (text_eq b t)) [
  | inl same ↦ absurd (ne (sym e ∙ sym ((text_eq_iff b t).0 same)))
  | inr other ↦ other
]

-- Let the factory give the same pair for both orders of two tokens, and the first token of the pair
-- be one of the two, up to capital letters, and not the other. Then the reserves are read in both
-- orders, and those of one order are those of the other with their places exchanged.
fetch_pair_reserves-swap :
    {F : Type 0} (units : ℕ → F) (c : PairChain) (a b pair t : Text) (r0 r1 : ℕ)
    → c.get_pair a b ≡ some pair
    → c.get_pair b a ≡ some pair
    → no_pair pair ≡ false
    → c.pair_token0 pair ≡ some t
    → c.pair_reserves pair ≡ some (r0, r1)
    → lower a ≢ lower b
    → (lower t ≡ lower a) ⊎ (lower t ≡ lower b)
    → (x : F) × (y : F) × (fetch_pair_reserves units c a b ≡ some (record { r_a = x; r_b = y }))
      × (fetch_pair_reserves units c b a ≡ some (record { r_a = y; r_b = x }))
unfolding fetch_pair_reserves
fetch_pair_reserves-swap units c a b pair t r0 r1 ab ba real first reserves ne (inl is_a) =
    let yes = (text_eq_iff (lower a) (lower t)).1 (sym is_a) in
    let no = other-false (lower a) (lower b) (lower t) ne is_a in
    (
      units r0,
      units r1,
      rw (ab) (rw real (rw first (rw reserves (rw yes refl)))),
      rw (ba) (rw real (rw first (rw reserves (rw no refl)))),
    )
fetch_pair_reserves-swap units c a b pair t r0 r1 ab ba real first reserves ne (inr is_b) =
    let yes = (text_eq_iff (lower b) (lower t)).1 (sym is_b) in
    let no = other-false (lower b) (lower a) (lower t) (λ e. ne (sym e)) is_b in
    (
      units r1,
      units r0,
      rw (ab) (rw real (rw first (rw reserves (rw no refl)))),
      rw (ba) (rw real (rw first (rw reserves (rw yes refl)))),
    )
