-- ===== src/Shared/Text.antt =====
-- A JavaScript string as the list of its code units, with the few methods that the program calls.
use Prim.Native.Nat.{ℕ, ◌+◌}
use Prim.Native.Char.{code}
use Prim.Native.String.{String}
use mathlib.Core.Path.{◌≡◌, refl}
use mathlib.Core.Logic.{◌↔◌}
use mathlib.Core.Bool.{Bool, true, false, ◌&&◌, ◌||◌}
use mathlib.Core.List.{List, [], ◌∷◌, map}
use native.Mathlib.Omega.{arith}
use energy_chain.Shared.Tests.{leb, ◌==◌, if◌then◌else◌}

abbrev pub Text : Type 0
Text = List ℕ

-- A literal of the source.
abbrev pub codes : String → Text
codes String.[] = []
codes (String.◌∷◌ c s) = code c ∷ codes s

-- `s === t`
abbrev pub text_eq : Text → Text → Bool
text_eq [] [] = true
text_eq [] (_ ∷ _) = false
text_eq (_ ∷ _) [] = false
text_eq (a ∷ s) (b ∷ t) = (a == b) && text_eq s t

pub text_eq_iff : (s t : Text) → (text_eq s t ≡ true) ↔ (s ≡ t)
text_eq_iff [] [] = ground arith
text_eq_iff [] (b ∷ t) = ground arith
text_eq_iff (a ∷ s) [] = ground arith
text_eq_iff (a ∷ s) (b ∷ t) = ground (arith, text_eq_iff s t)

pub text_eq_refl : (s : Text) → text_eq s s ≡ true
text_eq_refl s = (text_eq_iff s s).1 refl

-- `toLowerCase` on one code unit: the letters A to Z. Addresses are ASCII.
unfoldable pub lower_unit : ℕ → ℕ
lower_unit c = if leb b'A' c && leb c b'Z' then c + 32 else c

pub lower_unit_idem : (c : ℕ) → lower_unit (lower_unit c) ≡ lower_unit c
unfolding lower_unit
lower_unit_idem c = ground arith

-- `s.toLowerCase()`
unfoldable pub lower : Text → Text
unfolding lower_unit
lower s = map lower_unit s

lower_units_idem : (s : Text) → map lower_unit (map lower_unit s) ≡ map lower_unit s
lower_units_idem [] = refl
lower_units_idem (c ∷ s) = cc (lower_unit_idem c, lower_units_idem s)

pub lower_idem : (s : Text) → lower (lower s) ≡ lower s
unfolding lower
lower_idem s = lower_units_idem s

-- `s.startsWith(q)`
abbrev pub starts_with : Text → Text → Bool
starts_with [] s = true
starts_with (a ∷ q) [] = false
starts_with (a ∷ q) (b ∷ s) = (a == b) && starts_with q s

-- `s.includes(q)`
unfoldable pub includes : Text → Text → Bool
includes q [] = starts_with q []
includes q (c ∷ s) = starts_with q (c ∷ s) || includes q s
