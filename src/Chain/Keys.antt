-- ===== src/Chain/Keys.antt =====
-- Keys whose parts have a zero byte between them, in the modules of the chain.
use energy_chain.Shared.{
  ◌<◌, ◌≡◌, refl, sym, ap, subst, [], ◌∷◌, ◌++◌, drop, arith, ◌⊎◌, ◌∙◌, inl, inr, append_assoc,
}
use energy_chain.Shared.Text.{Text}

-- A text without a zero byte.
abbrev pub IsPlain : Text → Type 0
IsPlain [] = Unit
IsPlain (c ∷ t) = (0 < c) × IsPlain t

not-IsPlain : (r a : Text) → ¬ IsPlain (r ++ (0 ∷ a))
not-IsPlain [] a h = omega (arith, h.0)
not-IsPlain (c ∷ r) a h = not-IsPlain r a h.1

-- A key with a plain last part has one place to be split.
pub split_key :
    (q r a b : Text) → IsPlain a → IsPlain b → q ++ (0 ∷ a) ≡ r ++ (0 ∷ b) → (q ≡ r) × (a ≡ b)
split_key [] [] a b pa pb e = (refl, ap (drop 1) e)
split_key [] (c ∷ r) a b pa pb e = absurd (not-IsPlain r b (subst IsPlain (ap (drop 1) e) pa))
split_key (c ∷ q) [] a b pa pb e = absurd (not-IsPlain q a (subst IsPlain (sym (ap (drop 1) e)) pb))
split_key (c ∷ q) (d ∷ r) a b pa pb e =
    let (same, rest) = split_key q r a b pa pb (ap (drop 1) e) in (ground (arith, e, same), rest)

-- What an iterator over the keys behind `c` and a zero byte meets.
abbrev pub IsUnder : Text → Text → Type 0
IsUnder c t = (t ≡ c) ⊎ ((r : Text) × (t ≡ c ++ (0 ∷ r)))

pub key-IsUnder : (c t k a : Text) → IsPlain a → c ++ (0 ∷ k) ≡ t ++ (0 ∷ a) → IsUnder c t
key-IsUnder [] [] k a pa e = inl refl
key-IsUnder [] (d ∷ t) k a pa e = inr (t, ground (arith, e))
key-IsUnder (x ∷ c) [] k a pa e = absurd (not-IsPlain c k (subst IsPlain (sym (ap (drop 1) e)) pa))
key-IsUnder (x ∷ c) (d ∷ t) k a pa e = elim (key-IsUnder c t k a pa (ap (drop 1) e)) [
  | inl same ↦ inl (ground (arith, e, same))
  | inr (r, same) ↦ inr (r, ground (arith, e, same))
]

pub IsUnder-key : (c t a : Text) → IsUnder c t → (k : Text) × (t ++ (0 ∷ a) ≡ (c ++ (0 ∷ [])) ++ k)
IsUnder-key c t a (inl e) = (a, rw e (sym (append_assoc c (0 ∷ []) a)))
IsUnder-key c t a (inr (r, e)) = (
  r ++ (0 ∷ a),
  rw e (append_assoc c (0 ∷ r) (0 ∷ a) ∙ sym (append_assoc c (0 ∷ []) (r ++ (0 ∷ a)))),
)
