-- ===== src/Chain/Energy/Listed.antt =====
-- The index of categories in chain/x/energy/keeper/keeper.go: its entries and the records.
use energy_chain.Shared.{
  ℕ, ◌≡◌, ◌≢◌, refl, sym, ap, ap₂, ◌∙◌, subst, Bool, true, false, ◌∷◌, ◌++◌, Option, none, some,
  if◌then◌else◌, arith, inl, inr, ◌⊎◌, Bool-cases, drop,
}
use mathlib.Core.Option.{none-ne-some, some-injective}
use mathlib.Core.List.{Memᴰ}
use energy_chain.Shared.Text.{Text, text_eq, text_eq_iff}
use energy_chain.Chain.Keys.{IsPlain, split_key}
use energy_chain.Chain.Kv.{other_kind, get, set, get-set_other, get-set_if, Mem-set}
use energy_chain.Chain.Energy.Store.{EnergyData, Value, record_value, id_value, KvStore}
use energy_chain.Chain.Energy.{
  get_energy_data_key, get_energy_by_category_key, get_energy_by_submitter_key, put_energy_data,
  record_of, stored_record,
}

-- Every record stands under its own id, without a zero byte, and has its entry in the index; and every entry
-- of the index is that of a record.
pub record IsListed (s : KvStore) : Type 0 where
  pub entered :
      (id : Text) (d : EnergyData)
      → stored_record id s ≡ some d
      → (d.id ≡ id) × IsPlain id × (get (2 ∷ (d.category ++ (0 ∷ id))) s ≡ some (id_value id))
  pub listed :
      (k : Text) (v : Value)
      → Memᴰ (2 ∷ k, v) s
      → (d : EnergyData) × (k ≡ d.category ++ (0 ∷ d.id))
        × (v ≡ id_value d.id)
        × (stored_record d.id s ≡ some d)

-- A set of another kind.
pub set_other-IsListed :
    (kind : ℕ) (key : Text) (v : Value) (s : KvStore)
    → kind ≢ 1
    → kind ≢ 2
    → IsListed s
    → IsListed (set (kind ∷ key) v s)
unfolding stored_record get_energy_data_key
set_other-IsListed kind key v s ne1 ne2 right =
    let same =
      λ (id : Text). get-set_other (kind ∷ key) (1 ∷ id) v s (other_kind kind 1 key id ne1) in
    record {
      entered = λ id d e.
          let (own, plain, entry) = right.entered id d (ap record_of (sym (same id)) ∙ e) in
          (
            own,
            plain,
            get-set_other (kind ∷ key) (2 ∷ (d.category ++ (0 ∷ id))) v s
                  (other_kind kind 2 key (d.category ++ (0 ∷ id)) ne2)
                ∙ entry,
          );
      listed = λ k w h. elim (Mem-set (2 ∷ k, w) (kind ∷ key) v s h) [
        | inl hit ↦ absurd (other_kind kind 2 key k ne2 (sym (ap (λ z. z.0) hit)))
        | inr there ↦
            let (d, at, value, found) = right.listed k w there in
            (d, at, value, ap record_of (same d.id) ∙ found)
      ];
    }

stored_record-put_energy_data :
    (d : EnergyData) (id : Text) (s : KvStore)
    → stored_record id (put_energy_data d s)
      ≡ (if text_eq d.id id then some d else stored_record id s)
unfolding stored_record put_energy_data get_energy_data_key get_energy_by_category_key
    get_energy_by_submitter_key record_of
stored_record-put_energy_data d id s =
    ap record_of (
      get-set_other (3 ∷ d.submitter ++ (0 ∷ d.id)) (1 ∷ id) _ _ (other_kind 3 1 _ id (omega arith))
      ∙ (get-set_other (2 ∷ d.category ++ (0 ∷ d.id)) (1 ∷ id) _ _
            (other_kind 2 1 _ id (omega arith))
          ∙ get-set_if (1 ∷ d.id) (1 ∷ id) (record_value d) s))
    ∙ inside (text_eq d.id id) (get (1 ∷ id) s)
  where
    inside :
        (c : Bool) (o : Option Value)
        → record_of (if c then some (record_value d) else o) ≡ (if c then some d else record_of o)
    inside true o = refl
    inside false o = refl

entry_at :
    (d : EnergyData) (k : Text) (s : KvStore)
    → get (2 ∷ k) (put_energy_data d s)
      ≡ (if text_eq (d.category ++ (0 ∷ d.id)) k then some (id_value d.id) else get (2 ∷ k) s)
unfolding put_energy_data get_energy_data_key get_energy_by_category_key get_energy_by_submitter_key
entry_at d k s =
    get-set_other (3 ∷ d.submitter ++ (0 ∷ d.id)) (2 ∷ k) _ _ (other_kind 3 2 _ k (omega arith))
    ∙ (get-set_if (2 ∷ d.category ++ (0 ∷ d.id)) (2 ∷ k) (id_value d.id) _
        ∙ ap (λ o. if text_eq (d.category ++ (0 ∷ d.id)) k then some (id_value d.id) else o)
            (get-set_other (1 ∷ d.id) (2 ∷ k) _ s (other_kind 1 2 _ k (omega arith))))

entry_of :
    (d : EnergyData) (s : KvStore) (k : Text) (v : Value)
    → Memᴰ (2 ∷ k, v) (put_energy_data d s)
    → ((k ≡ d.category ++ (0 ∷ d.id)) × (v ≡ id_value d.id)) ⊎ Memᴰ (2 ∷ k, v) s
unfolding put_energy_data get_energy_data_key get_energy_by_category_key get_energy_by_submitter_key
entry_of d s k v h = elim (Mem-set (2 ∷ k, v) (3 ∷ d.submitter ++ (0 ∷ d.id)) _ _ h) [
  | inl e ↦ absurd (other_kind 2 3 _ _ (omega arith) (ap (λ z. z.0) e))
  | inr h2 ↦ elim (Mem-set (2 ∷ k, v) (2 ∷ d.category ++ (0 ∷ d.id)) _ _ h2) [
    | inl e ↦ inl (ap (λ z. drop 1 (z.0)) e, ap (λ z. z.1) e)
    | inr h3 ↦ elim (Mem-set (2 ∷ k, v) (1 ∷ d.id) _ _ h3) [
      | inl e ↦ absurd (other_kind 2 1 _ _ (omega arith) (ap (λ z. z.0) e))
      | inr there ↦ inr there
    ]
  ]
]

module _ (d : EnergyData) (s : KvStore) (right : IsListed s) where
  -- A record under a plain id that is not in use.
  pub put_energy_data-IsListed :
      IsPlain d.id → stored_record d.id s ≡ none → IsListed (put_energy_data d s)
  put_energy_data-IsListed plain unused = record {
    entered = λ id e found. elim (Bool-cases (text_eq d.id id)) [
      | inl hit ↦
          let own = (text_eq_iff d.id id).0 hit in
          let same : d ≡ e =
            some-injective d e (sym (stored_record-put_energy_data d id s ∙ rw hit refl) ∙ found) in
          (
            ap (λ z. z.id) (sym same) ∙ own,
            subst IsPlain own plain,
            subst
                (λ (z : Text × Text).
                  get (2 ∷ (z.0 ++ (0 ∷ z.1))) (put_energy_data d s) ≡ some (id_value z.1))
                (ap₂ (λ x y. (x, y)) (ap (λ z. z.category) same) own) own_entry,
          )
      | inr miss ↦
          let before : stored_record id s ≡ some e =
            sym (stored_record-put_energy_data d id s ∙ rw miss refl) ∙ found in
          let (own, plain2, entry) = right.entered id e before in
          (
            own,
            plain2,
            entry_at d (e.category ++ (0 ∷ id)) s
                ∙ other_entry e id
                    (λ c. other_id miss (split_key d.category e.category d.id id plain plain2 c).1)
                    entry,
          )
    ];
    listed = λ k v h. elim (entry_of d s k v h) [
      | inl (at, value) ↦ (d, at, value, own_found)
      | inr there ↦
          let (e, at, value, found) = right.listed k v there in (e, at, value, kept e found)
    ];
  }
    where
      own_found : stored_record d.id (put_energy_data d s) ≡ some d
      own_found = stored_record-put_energy_data d d.id s ∙ rw ((text_eq_iff d.id d.id).1 refl) refl

      own_entry : get (2 ∷ (d.category ++ (0 ∷ d.id))) (put_energy_data d s) ≡ some (id_value d.id)
      own_entry =
          entry_at d (d.category ++ (0 ∷ d.id)) s
          ∙ rw ((text_eq_iff (d.category ++ (0 ∷ d.id)) _).1 refl) refl

      other_id : {id : Text} → text_eq d.id id ≡ false → d.id ≢ id
      other_id {id} miss e = cc (miss, (text_eq_iff d.id id).1 e)

      other_entry :
          (e : EnergyData) (id : Text)
          → d.category ++ (0 ∷ d.id) ≢ e.category ++ (0 ∷ id)
          → get (2 ∷ (e.category ++ (0 ∷ id))) s ≡ some (id_value id)
          → (if text_eq (d.category ++ (0 ∷ d.id)) (e.category ++ (0 ∷ id))
              then some (id_value d.id)
              else get (2 ∷ (e.category ++ (0 ∷ id))) s)
            ≡ some (id_value id)
      other_entry e id ne entry =
          elim (Bool-cases (text_eq (d.category ++ (0 ∷ d.id)) (e.category ++ (0 ∷ id)))) [
            | inl hit ↦ absurd (ne ((text_eq_iff _ _).0 hit))
            | inr miss ↦ rw miss entry
          ]

      kept :
          (e : EnergyData)
          → stored_record e.id s ≡ some e
          → stored_record e.id (put_energy_data d s) ≡ some e
      kept e found = elim (Bool-cases (text_eq d.id e.id)) [
        | inl hit ↦ absurd (
            none-ne-some e
              (sym unused ∙ (ap (λ z. stored_record z s) ((text_eq_iff d.id e.id).0 hit) ∙ found)))
        | inr miss ↦ stored_record-put_energy_data d e.id s ∙ rw miss found
      ]
