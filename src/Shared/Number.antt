-- ===== src/Shared/Number.antt =====
-- How JavaScript prints a non-negative whole number (`toString`) and reads one back (`parseInt`
-- without a radix). `none` is NaN. Numbers are exact here: those above 2 ^ 53 are left out.
use energy_chain.Shared.Tests.{leb, ltb, ◌==◌, if◌then◌else◌, Bool-cases}
use energy_chain.Shared.Text.{Text}
use energy_chain.Shared.Lists.{All}
use energy_chain.Shared.Int.{ℤ, pos, sub_ℕ}
use Prim.Native.Nat.{ℕ, zero, suc, ◌+◌, ◌-◌, ◌*◌, ◌/◌, ◌%◌, ◌≤◌, ◌<◌}
use mathlib.Core.Path.{◌≡◌, refl, ◌∙◌, ap}
use mathlib.Core.Logic.{inl, inr}
use mathlib.Core.Bool.{Bool, ◌&&◌, ◌||◌}
use mathlib.Core.Option.{Option, none, some}
use mathlib.Core.List.{[], ◌∷◌}
use native.Mathlib.Omega.{arith}

-- The last digit is put in front of what is there; `fuel` bounds the number of digits.
emit : ℕ → ℕ → Text → Text
emit zero n out = out
emit (suc fuel) n out =
    let more = emit fuel (n / 10) ((b'0' + n % 10) ∷ out) in
    if ltb n 10 then (b'0' + n) ∷ out else more

-- `n.toString()`
unfoldable pub to_string : ℕ → Text
unfolding emit
to_string n = emit (suc n) n []

-- The value of a digit, if it is one in that base.
digit : ℕ → ℕ → Option ℕ
digit base c =
    let v : ℕ =
      (if leb b'0' c && leb c b'9'
        then c - b'0'
        else if leb b'a' c && leb c b'z'
        then c - b'a' + 10
        else if leb b'A' c && leb c b'Z'
        then c - b'A' + 10
        else 99) in
    if ltb v base then some v else none

-- The longest prefix of digits, read behind `acc`.
scan : ℕ → ℕ → Text → ℕ
scan base acc [] = acc
scan base acc (c ∷ s) = elim (digit base c) [ none ↦ acc | some v ↦ scan base (acc * base + v) s ]

digits_of : ℕ → Text → Option ℕ
digits_of base [] = none
digits_of base (c ∷ s) = elim (digit base c) [ none ↦ none | some v ↦ some (scan base v s) ]

-- A leading `0x` selects base 16.
parse_unsigned : Text → Option ℕ
parse_unsigned [] = none
parse_unsigned (c ∷ []) = digits_of 10 (c ∷ [])
parse_unsigned (c ∷ (d ∷ s)) =
    if (c == b'0') && ((d == b'x') || (d == b'X'))
    then digits_of 16 s
    else digits_of 10 (c ∷ (d ∷ s))

abbrev as_pos : Option ℕ → Option ℤ
as_pos none = none
as_pos (some n) = some (pos n)

abbrev as_neg : Option ℕ → Option ℤ
as_neg none = none
as_neg (some n) = some (sub_ℕ 0 n)

parse_signed : Text → Option ℤ
parse_signed [] = none
parse_signed (c ∷ s) =
    if c == b'-'
    then as_neg (parse_unsigned s)
    else if c == b'+'
    then as_pos (parse_unsigned s)
    else as_pos (parse_unsigned (c ∷ s))

-- The white space of JavaScript.
unfoldable pub is_space : ℕ → Bool
is_space c =
    (leb 9 c && leb c 13)
    || (c == 32)
    || (c == 160)
    || (c == 5760)
    || (leb 8192 c && leb c 8202)
    || (c == 8232)
    || (c == 8233)
    || (c == 8239)
    || (c == 8287)
    || (c == 12288)
    || (c == 65279)

unfoldable pub trim_start : Text → Text
trim_start [] = []
trim_start (c ∷ s) = if is_space c then trim_start s else c ∷ s

-- `parseInt(s)`
unfoldable pub parse_int : Text → Option ℤ
unfolding parse_signed parse_unsigned digits_of scan digit trim_start is_space
parse_int s = parse_signed (trim_start s)

abbrev pub IsDigit : ℕ → Type 0
IsDigit c = (b'0' ≤ c) × (c ≤ b'9')

emit-All : (f n : ℕ) (out : Text) → All IsDigit out → All IsDigit (emit f n out)
unfolding emit
emit-All zero n out h = h
emit-All (suc f) n out h =
    ground (arith, emit-All f (n / 10) ((b'0' + n % 10) ∷ out) (omega arith, h))

digit-dec : (c : ℕ) → IsDigit c → digit 10 c ≡ some (c - b'0')
unfolding digit
digit-dec c h = ground arith

digits_of-digit :
    (c : ℕ) (s : Text) → IsDigit c → digits_of 10 (c ∷ s) ≡ some (scan 10 (c - b'0') s)
unfolding digits_of
digits_of-digit c s h = rw (digit-dec c h, digits_of)

scan-digit : (n : ℕ) (s : Text) → scan 10 (n / 10) ((b'0' + n % 10) ∷ s) ≡ scan 10 n s
unfolding scan
scan-digit n s =
    rw (digit-dec (b'0' + n % 10) (omega arith), scan) (ap (λ k. scan 10 k s) (omega arith))

scan-emit : (f n : ℕ) (s : Text) → n < f → digits_of 10 (emit f n s) ≡ some (scan 10 n s)
unfolding emit
scan-emit zero n s h = absurd (omega arith)
scan-emit (suc f) n s h = elim (Bool-cases (ltb n 10)) [
  | inl small ↦
      rw small
        (digits_of-digit (b'0' + n) s (ground arith) ∙ ap (λ k. some (scan 10 k s)) (omega arith))
  | inr big ↦
      rw big (scan-emit f (n / 10) ((b'0' + n % 10) ∷ s) (ground arith) ∙ ap some (scan-digit n s))
]

parse_unsigned-digits : (s : Text) → All IsDigit s → parse_unsigned s ≡ digits_of 10 s
unfolding parse_unsigned digits_of
parse_unsigned-digits [] h = refl
parse_unsigned-digits (c ∷ []) h = refl
parse_unsigned-digits (c ∷ (d ∷ s)) h = ground arith

trim_start-digits : (s : Text) → All IsDigit s → trim_start s ≡ s
unfolding trim_start is_space
trim_start-digits [] h = refl
trim_start-digits (c ∷ s) h = ground arith

parse_signed-head :
    (c : ℕ) (s : Text) → All IsDigit (c ∷ s) → parse_signed (c ∷ s) ≡ as_pos (digits_of 10 (c ∷ s))
unfolding parse_signed
parse_signed-head c s h = ground (arith, parse_unsigned-digits (c ∷ s) h)

parse_signed-digits : (s : Text) → All IsDigit s → parse_signed s ≡ as_pos (digits_of 10 s)
unfolding parse_signed digits_of
parse_signed-digits [] h = refl
parse_signed-digits (c ∷ s) h = parse_signed-head c s h

parse_int-digits : (s : Text) → All IsDigit s → parse_int s ≡ as_pos (digits_of 10 s)
unfolding parse_int
parse_int-digits s h = ap parse_signed (trim_start-digits s h) ∙ parse_signed-digits s h

pub to_string-All : (n : ℕ) → All IsDigit (to_string n)
unfolding to_string
to_string-All n = emit-All (suc n) n [] tt

-- What is printed is read back.
pub parse_int-to_string : (n : ℕ) → parse_int (to_string n) ≡ some (pos n)
unfolding to_string scan
parse_int-to_string n =
    parse_int-digits (emit (suc n) n []) (emit-All (suc n) n [] tt)
    ∙ ap as_pos (scan-emit (suc n) n [] (omega arith))

emit-cons : (f n c : ℕ) (s : Text) → (d : ℕ) × (t : Text) × (emit f n (c ∷ s) ≡ d ∷ t)
unfolding emit
emit-cons zero n c s = (c, s, refl)
emit-cons (suc f) n c s = elim (Bool-cases (ltb n 10)) [
  | inl small ↦ (b'0' + n, c ∷ s, rw small)
  | inr big ↦ let (d, t, e) = emit-cons f (n / 10) (b'0' + n % 10) (c ∷ s) in (d, t, rw big e)
]

-- A printed number has at least one digit.
pub to_string-cons : (n : ℕ) → (d : ℕ) × (t : Text) × (to_string n ≡ d ∷ t)
unfolding to_string emit
to_string-cons n = elim (Bool-cases (ltb n 10)) [
  | inl small ↦ (b'0' + n, [], rw small)
  | inr big ↦ let (d, t, e) = emit-cons n (n / 10) (b'0' + n % 10) [] in (d, t, rw big e)
]
