-- ===== src/Chain/Kv.antt =====
-- The store of a module of the chain: keys in ascending order of their bytes, each with a value.
use energy_chain.Shared.{
  sym, ap₂, ◌⊎◌, ℕ, refl, ap, ◌∙◌, ◌≡◌, ◌≢◌, Bool, true, false, List, [], ◌∷◌, ◌++◌, Option, none,
  some, ltb, ◌==◌, ◌||◌, ◌&&◌, if◌then◌else◌, arith, Bool-cases, Option-cases, inl, inr, subst,
}
use mathlib.Core.List.{Memᴰ}
use mathlib.Core.Option.{none-ne-some, some-injective}
use energy_chain.Shared.Text.{Text, text_eq, text_eq_iff, text_eq_refl}

-- Keys are compared byte by byte.
unfoldable pub less_text : Text → Text → Bool
less_text s [] = false
less_text [] (b ∷ t) = true
less_text (a ∷ s) (b ∷ t) = ltb a b || ((a == b) && less_text s t)

-- What is behind a prefix.
unfoldable pub strip : Text → Text → Option Text
strip [] k = some k
strip (a ∷ p) [] = none
strip (a ∷ p) (b ∷ k) = if a == b then strip p k else none

strip-append : (p t : Text) → strip p (p ++ t) ≡ some t
unfolding strip
strip-append [] t = refl
strip-append (a ∷ p) t = ground (arith, strip-append p t)

strip-eq : (p k t : Text) → strip p k ≡ some t → k ≡ p ++ t
unfolding strip
strip-eq [] k t e = some-injective k t e
strip-eq (a ∷ p) [] t e = elim (none-ne-some t e) [ ]
strip-eq (a ∷ p) (b ∷ k) t e = ground (arith, strip-eq p k t)

-- Keys of two kinds.
pub other_kind : (a b : ℕ) (s t : Text) → a ≢ b → a ∷ s ≢ b ∷ t
other_kind a b s t ne e = ground arith

module _ {V : Type 0} where
  unfoldable pub get : Text → List (Text × V) → Option V
  get k [] = none
  get k ((j, w) ∷ m) = if text_eq j k then some w else get k m

  unfoldable pub set : Text → V → List (Text × V) → List (Text × V)
  unfolding less_text
  set k v [] = (k, v) ∷ []
  set k v ((j, w) ∷ m) =
      let rest = (j, w) ∷ set k v m in
      if text_eq j k then (k, v) ∷ m else if less_text k j then (k, v) ∷ (j, w) ∷ m else rest

  pub get-set : (k : Text) (v : V) (m : List (Text × V)) → get k (set k v m) ≡ some v
  unfolding get set
  get-set k v [] = ground (arith, text_eq_refl k)
  get-set k v ((j, w) ∷ m) = ground (arith, text_eq_refl k, get-set k v m)

  pub get-set_other :
      (k j : Text) (v : V) (m : List (Text × V)) → k ≢ j → get j (set k v m) ≡ get j m
  unfolding get set
  get-set_other k j v [] ne = ground (arith, text_eq_iff k j)
  get-set_other k j v ((i, w) ∷ m) ne =
      ground (arith, text_eq_iff k j, text_eq_iff i k, text_eq_iff i j, get-set_other k j v m ne)

  pub get-set_if :
      (k j : Text) (v : V) (m : List (Text × V))
      → get j (set k v m) ≡ (if text_eq k j then some v else get j m)
  get-set_if k j v m = elim (Bool-cases (text_eq k j)) [
    | inl e ↦ rw e (subst (λ z. get z (set k v m) ≡ some v) ((text_eq_iff k j).0 e) (get-set k v m))
    | inr e ↦ rw e (get-set_other k j v m (λ same. cc (e, (text_eq_iff k j).1 same)))
  ]

  unfoldable pub delete : Text → List (Text × V) → List (Text × V)
  delete k [] = []
  delete k ((j, w) ∷ m) = let rest = (j, w) ∷ delete k m in if text_eq j k then m else rest

  -- The entries under a prefix, as an iterator over them gives them: without the prefix.
  unfoldable pub under : Option Text → V → List (Text × V) → List (Text × V)
  under none v m = m
  under (some t) v m = (t, v) ∷ m

  unfoldable pub iterate : Text → List (Text × V) → List (Text × V)
  iterate p [] = []
  iterate p ((k, v) ∷ m) = under (strip p k) v (iterate p m)

  -- Every key with the prefix is met.
  pub iterate_complete :
      (p t : Text) (v : V) (m : List (Text × V))
      → get (p ++ t) m ≡ some v
      → Memᴰ (t, v) (iterate p m)
  unfolding get iterate under
  iterate_complete p t v [] e = elim (none-ne-some v e) [ ]
  iterate_complete p t v ((k, w) ∷ m) e = elim (Bool-cases (text_eq k (p ++ t))) [
    | inl same ↦
        let found : strip p k ≡ some t =
          ap (strip p) ((text_eq_iff k (p ++ t)).0 same) ∙ strip-append p t in
        rw found (Memᴰ.head (ap (λ z. (t, z)) (some-injective v w (ground (arith, e, same)))))
    | inr other ↦ later w (strip p k) (iterate_complete p t v m (ground (arith, e, other)))
  ]
    where
      later :
          {e : Text × V} (w : V) {m : List (Text × V)} (o : Option Text)
          → Memᴰ e m
          → Memᴰ e (under o w m)
      later w none h = h
      later w (some u) h = Memᴰ.tail h

  -- A key that is met is in the store.
  pub iterate_sound :
      (p t : Text) (v : V) (m : List (Text × V))
      → Memᴰ (t, v) (iterate p m)
      → (w : V) × (get (p ++ t) m ≡ some w)
  unfolding get iterate under
  iterate_sound p t v [] h = elim h [ ]
  iterate_sound p t v ((k, w) ∷ m) h = elim (Option-cases (strip p k)) [
    | inl e ↦
        past p t k w m
          (iterate_sound p t v m (subst (λ o. Memᴰ (t, v) (under o w (iterate p m))) e h))
    | inr (u, e) ↦ elim (subst (λ o. Memᴰ (t, v) (under o w (iterate p m))) e h) [
      | Memᴰ.head same ↦ (
        w,
        rw (strip-eq p k u e) (rw (ap (λ z. z.0) same) (ground (arith, text_eq_refl (p ++ u)))),
      )
      | Memᴰ.tail rest ↦ past p t k w m (iterate_sound p t v m rest)
    ]
  ]
    where
      past :
          (p t k : Text) (w : V) (m : List (Text × V))
          → (u : V) × (get (p ++ t) m ≡ some u)
          → (u : V) × (get (p ++ t) ((k, w) ∷ m) ≡ some u)
      past p t k w m (u, e) = elim (Bool-cases (text_eq k (p ++ t))) [
        | inl same ↦ (w, ground (arith, same))
        | inr other ↦ (u, ground (arith, other, e))
      ]

  -- What is met, and what a set leaves.
  pub iterate-Mem :
      (p t : Text) (v : V) (m : List (Text × V)) → Memᴰ (t, v) (iterate p m) → Memᴰ (p ++ t, v) m
  unfolding iterate under
  iterate-Mem p t v [] h = elim h [ ]
  iterate-Mem p t v ((k, w) ∷ m) h = elim (Option-cases (strip p k)) [
    | inl e ↦
        Memᴰ.tail (iterate-Mem p t v m (subst (λ o. Memᴰ (t, v) (under o w (iterate p m))) e h))
    | inr (u, e) ↦ elim (subst (λ o. Memᴰ (t, v) (under o w (iterate p m))) e h) [
      | Memᴰ.head same ↦ Memᴰ.head (
          ap₂ (λ x y. (x, y)) (ap (λ z. p ++ z.0) same ∙ sym (strip-eq p k u e))
            (ap (λ z. z.1) same))
      | Memᴰ.tail rest ↦ Memᴰ.tail (iterate-Mem p t v m rest)
    ]
  ]

  pub Mem-set :
      (e : Text × V) (k : Text) (v : V) (m : List (Text × V))
      → Memᴰ e (set k v m)
      → (e ≡ (k, v)) ⊎ Memᴰ e m
  unfolding set
  Mem-set e k v [] (Memᴰ.head same) = inl same
  Mem-set e k v [] (Memᴰ.tail h) = elim h [ ]
  Mem-set e k v ((j, w) ∷ m) h = placed (text_eq j k) (less_text k j) h (λ r. Mem-set e k v m r)
    where
      placed :
          {e : Text × V} {k j : Text} {v w : V} {m n : List (Text × V)} (here before : Bool)
          → Memᴰ e (if here then (k, v) ∷ m else if before then (k, v) ∷ (j, w) ∷ m else (j, w) ∷ n)
          → (Memᴰ e n → (e ≡ (k, v)) ⊎ Memᴰ e m)
          → (e ≡ (k, v)) ⊎ Memᴰ e ((j, w) ∷ m)
      placed true before (Memᴰ.head same) later = inl same
      placed true before (Memᴰ.tail h) later = inr (Memᴰ.tail h)
      placed false true (Memᴰ.head same) later = inl same
      placed false true (Memᴰ.tail h) later = inr h
      placed false false (Memᴰ.head same) later = inr (Memᴰ.head same)
      placed false false (Memᴰ.tail h) later = elim (later h) [
        | inl same ↦ inl same
        | inr there ↦ inr (Memᴰ.tail there)
      ]
