-- ===== src/Wallet/Format.antt =====
-- The helpers of dex-frontend/src/lib/utils.ts, which no other file calls; `formatUSD` is a call of the
-- library.
use energy_chain.Shared.{
  ℕ, zero, suc, ◌+◌, ◌-◌, ◌*◌, ◌≤◌, ◌≡◌, refl, ap, ◌∙◌, Bool, true, not, ◌||◌, ◌&&◌, [], ◌∷◌, ◌++◌,
  Option, none, some, take, drop, length, reverse, ltb, leb, ◌==◌, min, if◌then◌else◌, Bool-cases,
  inl, inr, arith, sym,
}
use energy_chain.Shared.Text.{Text, codes, starts_with}
use energy_chain.Wallet.Units.{Units}
use energy_chain.Wallet.Display.{slice_last}
use energy_chain.Wallet.Tokens.{trim}

-- `shortenAddress`
unfoldable pub shorten_address : Text → Text
shorten_address a =
    if not (starts_with (codes "0x") a) || ltb (length a) 10
    then a
    else take 6 a ++ codes "…" ++ slice_last 4 a

-- `/^\d+$/.test(t)`
abbrev pub all_digits : Text → Bool
all_digits [] = true
all_digits (c ∷ s) = leb b'0' c && leb c b'9' && all_digits s

-- `t.replace(/,/g, "")`
abbrev pub without_commas : Text → Text
without_commas [] = []
without_commas (c ∷ s) = let rest = without_commas s in if c == b',' then rest else c ∷ rest

-- `replace(/\.?0+$/, "")` on the text backwards: zeros, and a dot behind them.
abbrev pub drop_zeros : Text → Text
drop_zeros [] = []
drop_zeros (c ∷ s) = let rest = drop_zeros s in if c == b'0' then rest else c ∷ s

abbrev pub drop_dot : Text → Text
drop_dot [] = []
drop_dot (c ∷ s) = if c == b'.' then s else c ∷ s

abbrev pub drop_tail : Text → Text
drop_tail [] = []
drop_tail (c ∷ s) = if c == b'0' then drop_dot (drop_zeros s) else c ∷ s

unfoldable pub strip_zeros : Text → Text
strip_zeros s = reverse (drop_tail (reverse s))

abbrev pub or_zero_text : Text → Text
or_zero_text [] = codes "0"
or_zero_text (c ∷ s) = c ∷ s

-- `read` is `BigInt` of a text of digits, `to_number` is `Number` where it is finite, and `to_fixed` is
-- `toFixed`. The two functions are the two types of the argument.
module _ (u : Units) (read : Text → ℕ) (to_number : Text → Option u.F)
    (to_fixed : ℕ → u.F → Text) where
  unfoldable pub format_bigint : ℕ → ℕ → Text
  format_bigint amount decimals = u.format_units amount decimals

  abbrev pub format_trimmed : Text → ℕ → Text
  format_trimmed [] decimals = codes "0"
  format_trimmed (c ∷ s) decimals =
      if all_digits (c ∷ s)
      then u.format_units (read (c ∷ s)) decimals
      else elim (to_number (without_commas (c ∷ s))) [
        | none ↦ codes "0"
        | some n ↦ or_zero_text (strip_zeros (to_fixed (min decimals 20) n))
      ]

  unfoldable pub format_amount : Text → ℕ → Text
  unfolding strip_zeros
  format_amount amount decimals = format_trimmed (trim amount) decimals

-- `calculatePriceImpact`; `units n d` is `parseFloat(formatUnits(n, d))`.
module _ (F : Type 0) (zero_f hundred : F) (is_zero : F → Bool) (minus over times : F → F → F)
    (units : ℕ → ℕ → F) where
  unfoldable pub calculate_price_impact : ℕ → ℕ → ℕ → ℕ → ℕ → F
  calculate_price_impact amount_in amount_out reserve_in reserve_out decimals =
      let r_out = units reserve_out decimals in
      let r_in = units reserve_in decimals in
      let a_in = units amount_in decimals in
      let a_out = units amount_out decimals in
      let market_ratio = over r_out r_in in
      let exec_ratio = over a_out a_in in
      if (amount_in == 0) || (reserve_in == 0) || (reserve_out == 0)
      then zero_f
      else if is_zero r_in || is_zero a_in
      then zero_f
      else if is_zero market_ratio
      then zero_f
      else times (over (minus market_ratio exec_ratio) market_ratio) hundred

-- `getDeadline` at a time in seconds; `default` is `DEFAULT_DEADLINE`.
unfoldable pub get_deadline : ℕ → ℕ → Option ℕ → ℕ
get_deadline default now none = now + default * 60
get_deadline default now (some minutes) = now + minutes * 60

length-drop : (n : ℕ) (s : Text) → length (drop n s) ≡ length s - n
length-drop zero s = omega arith
length-drop (suc n) [] = omega arith
length-drop (suc n) (c ∷ s) = length-drop n s ∙ omega arith

module _ (a b c d e f : ℕ) where
  -- A text that is shortened already.
  short_same :
      (l : Text)
      → starts_with (codes "0x") (a ∷ b ∷ []) ≡ true
      → length l ≡ 4
      → let s = a ∷ b ∷ c ∷ d ∷ e ∷ f ∷ 8230 ∷ l in shorten_address s ≡ s
  unfolding shorten_address
  short_same l h k = rw (h, k) refl

long_same :
    (s : Text)
    → starts_with (codes "0x") s ≡ true
    → 10 ≤ length s
    → let t = take 6 s ++ codes "…" ++ slice_last 4 s in shorten_address t ≡ t
long_same [] h k = absurd (omega (arith, k))
long_same (a ∷ []) h k = absurd (omega (arith, k))
long_same (a ∷ (b ∷ [])) h k = absurd (omega (arith, k))
long_same (a ∷ (b ∷ (c ∷ []))) h k = absurd (omega (arith, k))
long_same (a ∷ (b ∷ (c ∷ (d ∷ [])))) h k = absurd (omega (arith, k))
long_same (a ∷ (b ∷ (c ∷ (d ∷ (e ∷ []))))) h k = absurd (omega (arith, k))
long_same (a ∷ (b ∷ (c ∷ (d ∷ (e ∷ (f ∷ s)))))) h k =
    let all : Text = a ∷ b ∷ c ∷ d ∷ e ∷ f ∷ s in
    short_same a b c d e f (slice_last 4 all) h
      (length-drop (length all - 4) all ∙ omega (arith, k))

-- Shortening an address once more changes nothing.
shorten_address_idem : (a : Text) → shorten_address (shorten_address a) ≡ shorten_address a
unfolding shorten_address
shorten_address_idem a = elim (Bool-cases (not (starts_with (codes "0x") a) || ltb (length a) 10)) [
  | inl kept ↦ let same : shorten_address a ≡ a = rw kept refl in ap shorten_address same
  | inr cut ↦
      let same : shorten_address a ≡ take 6 a ++ codes "…" ++ slice_last 4 a = rw cut refl in
      ap shorten_address same ∙ long_same a (ground arith) (ground arith) ∙ sym same
]
