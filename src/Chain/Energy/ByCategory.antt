-- ===== src/Chain/Energy/ByCategory.antt =====
-- `GetEnergyDataByCategory` of chain/x/energy/keeper/keeper.go against the stored records.
use mathlib.Core.Option
use energy_chain.Shared.{
  ◌≡◌, ◌↔◌, refl, sym, ap, ◌∙◌, subst, List, [], ◌∷◌, ◌++◌, some, inl, inr, Option-cases, Option,
  append_assoc,
}
use mathlib.Core.Option.{some-injective}
use mathlib.Core.List.{Memᴰ}
use energy_chain.Shared.Text.{Text}
use energy_chain.Chain.Keys.{IsUnder, key-IsUnder, IsUnder-key}
use energy_chain.Chain.Kv.{get, iterate, iterate_complete, iterate-Mem}
use energy_chain.Chain.Energy.Store.{EnergyData, Value, id_value, KvStore}
use energy_chain.Chain.Energy.{decoded, stored_record, get_energy_data}
use energy_chain.Chain.Energy.Queries.{
  get_energy_by_category_prefix_key, id_of, append_found, data_at, get_energy_data_by_category,
}
use energy_chain.Chain.Energy.Listed.{IsListed}

module _ (json : Text → Text) where
  found_at :
      (s : KvStore) (entries : List (Text × Value)) (d : EnergyData)
      → Memᴰ d (data_at json s entries)
      → (k : Text) × (v : Value) × (r : EnergyData) × Memᴰ (k, v) entries
        × (stored_record (id_of v) s ≡ some r)
        × (d ≡ decoded json r)
  unfolding data_at append_found get_energy_data
  found_at s [] d h = elim h [ ]
  found_at s ((k, v) ∷ entries) d h =
      let shown = λ (o : Option EnergyData).
        append_found (Option.map (decoded json) o) (data_at json s entries) in
      elim (Option-cases (stored_record (id_of v) s)) [
        | inl e ↦
            let (l, w, r, m, f, g) = found_at s entries d (subst (λ o. Memᴰ d (shown o)) e h) in
            (l, w, r, Memᴰ.tail m, f, g)
        | inr (j, e) ↦ elim (subst (λ o. Memᴰ d (shown o)) e h) [
          | Memᴰ.head same ↦ (k, v, j, Memᴰ.head refl, e, same)
          | Memᴰ.tail rest ↦
              let (l, w, r, m, f, g) = found_at s entries d rest in (l, w, r, Memᴰ.tail m, f, g)
        ]
      ]

  at-found :
      (s : KvStore) (entries : List (Text × Value)) (r : EnergyData) (k : Text) (v : Value)
      → Memᴰ (k, v) entries
      → stored_record (id_of v) s ≡ some r
      → Memᴰ (decoded json r) (data_at json s entries)
  unfolding data_at append_found get_energy_data
  at-found s [] r k v h e = elim h [ ]
  at-found s ((l, w) ∷ entries) r k v (Memᴰ.head same) e =
      rw (ap (λ z. stored_record (id_of (z.1)) s) (sym same) ∙ e) (Memᴰ.head refl)
  at-found s ((l, w) ∷ entries) r k v (Memᴰ.tail h) e =
      elim (Option-cases (stored_record (id_of w) s)) [
        | inl f ↦ rw f (at-found s entries r k v h e)
        | inr (j, f) ↦ rw f (Memᴰ.tail (at-found s entries r k v h e))
      ]

  -- A record of a category, as it was submitted, that is decoded to `d`.
  abbrev pub IsOfCategory : Text → KvStore → EnergyData → Type 0
  IsOfCategory category s d =
      (r : EnergyData) × (stored_record r.id s ≡ some r)
      × IsUnder category r.category
      × (d ≡ decoded json r)

  -- On a store whose index is right: what is listed for a category are the records of that category and
  -- of those that begin with it and a zero byte, as they are decoded.
  pub category_iff :
      (s : KvStore) (category : Text) (d : EnergyData)
      → IsListed s
      → Memᴰ d (get_energy_data_by_category json category s) ↔ IsOfCategory category s d
  unfolding get_energy_data_by_category get_energy_by_category_prefix_key id_of
  category_iff s category d right = (
    (λ h.
        let prefix = (2 ∷ category) ++ (0 ∷ []) in
        let (k, v, r, entry, found, shown) = found_at s (iterate prefix s) d h in
        let (e, at, value, there) =
          right.listed ((category ++ (0 ∷ [])) ++ k) v (iterate-Mem prefix k v s entry) in
        let same : r ≡ e =
          some-injective r e (sym found ∙ (ap (λ z. stored_record (id_of z) s) value ∙ there)) in
        (
          r,
          subst (λ z. stored_record z.id s ≡ some z) (sym same) there,
          subst (λ z. IsUnder category z.category) (sym same)
              (key-IsUnder category e.category k e.id (right.entered e.id e there).1
                (sym (append_assoc category (0 ∷ []) k) ∙ at)),
          shown,
        )),
    (λ (r, stored, under, shown).
        let (own, plain, entry) = right.entered r.id r stored in
        let (k, at) = IsUnder-key category r.category r.id under in
        let prefix = (2 ∷ category) ++ (0 ∷ []) in
        subst (λ z. Memᴰ z (data_at json s (iterate prefix s))) (sym shown)
          (at-found s (iterate prefix s) r k (id_value r.id)
            (iterate_complete prefix k (id_value r.id) s
              (subst (λ z. get (2 ∷ z) s ≡ some (id_value r.id)) at entry))
            stored)),
  )
