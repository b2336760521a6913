-- ===== src/Chain/Identity/Index.antt =====
-- The index of roles in chain/x/identity/keeper/keeper.go: its entries and the identities.
use energy_chain.Shared.{
  append_assoc, ◌≡◌, ◌↔◌, refl, sym, ap, ap₂, ◌∙◌, ◌⊎◌, subst, Bool, true, false, [], ◌∷◌, ◌++◌,
  Option, some, if◌then◌else◌, arith, inl, inr, Bool-cases, drop,
}
use mathlib.Core.Option.{some-injective}
use energy_chain.Shared.Text.{Text, text_eq, text_eq_iff}
use energy_chain.Chain.Keys.{IsPlain, split_key}
use energy_chain.Chain.Kv.{other_kind, get, get-set_other, get-set_if}
use energy_chain.Chain.Identity.{
  Identity, Value, identity_value, mark, KvStore, params_key, get_identity_key,
  get_identity_by_role_prefix_key, get_identity_by_role_key, set_identity, identity_of,
  get_identity, get_params, params_of,
}

-- One identity is set: it is found under its address, and the others are as before.
pub get_identity-set_identity :
    (identity : Identity) (a : Text) (s : KvStore)
    → get_identity a (set_identity identity s)
      ≡ (if text_eq identity.address a then some identity else get_identity a s)
unfolding get_identity set_identity get_identity_key get_identity_by_role_key
    get_identity_by_role_prefix_key identity_of
get_identity-set_identity identity a s =
    ap identity_of (
      get-set_other (2 ∷ (identity.role ++ (0 ∷ [])) ++ identity.address) (1 ∷ a) mark _
        (other_kind 2 1 _ a (omega arith))
      ∙ get-set_if (1 ∷ identity.address) (1 ∷ a) (identity_value identity) s)
    ∙ inside (text_eq identity.address a) identity (get (1 ∷ a) s)
  where
    inside :
        (c : Bool) (identity : Identity) (o : Option Value)
        → identity_of (if c then some (identity_value identity) else o)
          ≡ (if c then some identity else identity_of o)
    inside true identity o = refl
    inside false identity o = refl

get_params-set_identity :
    (identity : Identity) (s : KvStore) → get_params (set_identity identity s) ≡ get_params s
unfolding get_params set_identity get_identity_key get_identity_by_role_key
    get_identity_by_role_prefix_key
get_params-set_identity identity s = ap params_of (
    get-set_other (2 ∷ (identity.role ++ (0 ∷ [])) ++ identity.address) params_key mark _
      (other_kind 2 b'i' _ _ (omega arith))
    ∙ get-set_other (1 ∷ identity.address) params_key _ s (other_kind 1 b'i' _ _ (omega arith)))

entry_at :
    (identity : Identity) (role a : Text) (s : KvStore)
    → get (get_identity_by_role_key role a) (set_identity identity s) ≡ (
        if text_eq
          (get_identity_by_role_key identity.role identity.address)
          (get_identity_by_role_key role a)
        then some mark
        else get (get_identity_by_role_key role a) s)
unfolding set_identity get_identity_key get_identity_by_role_key get_identity_by_role_prefix_key
entry_at identity role a s =
    let key = 2 ∷ (role ++ (0 ∷ [])) ++ a in
    let own = 2 ∷ (identity.role ++ (0 ∷ [])) ++ identity.address in
    get-set_if own key mark _
    ∙ ap (λ o. if text_eq own key then some mark else o)
        (get-set_other (1 ∷ identity.address) key _ s (other_kind 1 2 _ _ (omega arith)))

-- Every identity stands under its own address, and has its entry in the index; and every entry with a
-- plain address is that of the role which the identity has.
pub record IsIndexed (s : KvStore) : Type 0 where
  pub addressed :
      (a : Text) (i : Identity) → get_identity a s ≡ some i → (i.address ≡ a) × IsPlain a
  pub entered :
      (a : Text) (i : Identity)
      → get_identity a s ≡ some i
      → get (get_identity_by_role_key i.role a) s ≡ some mark
  pub listed :
      (role a : Text) (v : Value)
      → IsPlain a
      → get (get_identity_by_role_key role a) s ≡ some v
      → (i : Identity) × (get_identity a s ≡ some i) × (i.role ≡ role)

module _ (identity : Identity) (s : KvStore) (indexed : IsIndexed s) where
  -- What is found after the set: the identity, or one of before.
  found_after :
      (a : Text) (j : Identity)
      → get_identity a (set_identity identity s) ≡ some j
      → ((identity.address ≡ a) × (identity ≡ j)) ⊎ (get_identity a s ≡ some j)
  found_after a j e =
      split (text_eq_iff identity.address a) (sym (get_identity-set_identity identity a s) ∙ e)
    where
      split :
          {c : Bool} {j : Identity} {a b : Text} {o : Option Identity}
          → (c ≡ true) ↔ (a ≡ b)
          → (if c then some identity else o) ≡ some j
          → ((a ≡ b) × (identity ≡ j)) ⊎ (o ≡ some j)
      split {c = true} same e = inl (same.0 refl, some-injective _ _ e)
      split {c = false} same e = inr e

  pub set_identity-IsIndexed :
      IsPlain identity.address
      → ((j : Identity) → get_identity identity.address s ≡ some j → j.role ≡ identity.role)
      → IsIndexed (set_identity identity s)
  unfolding get_identity_by_role_key get_identity_by_role_prefix_key
  set_identity-IsIndexed plain same_role = record {
    addressed = λ a j e. elim (found_after a j e) [
      | inl (at, same) ↦ (ap (λ i. i.address) (sym same) ∙ at, subst IsPlain at plain)
      | inr before ↦ indexed.addressed a j before
    ];
    entered = λ a j e.
        let own = get_identity_by_role_key identity.role identity.address in
        let key = get_identity_by_role_key j.role a in
        entry_at identity j.role a s ∙ elim (Bool-cases (text_eq own key)) [
          | inl hit ↦ rw hit refl
          | inr miss ↦ rw miss (elim (found_after a j e) [
            | inl (at, same) ↦ absurd (other_key j a at same miss)
            | inr before ↦ indexed.entered a j before
          ])
        ];
    listed = λ role a v pa e.
        let own = get_identity_by_role_key identity.role identity.address in
        let key = get_identity_by_role_key role a in
        elim (Bool-cases (text_eq own key)) [
          | inl hit ↦
              let (r, at) = split_keys role a pa ((text_eq_iff own key).0 hit) in
              (identity, own_found a at, r)
          | inr miss ↦
              let (j, before, r) =
                indexed.listed role a v pa (missed miss (sym (entry_at identity role a s) ∙ e)) in
              elim (Bool-cases (text_eq identity.address a)) [
                | inl at ↦
                    let place = (text_eq_iff identity.address a).0 at in
                    (
                      identity,
                      own_found a place,
                      sym (same_role j (subst (λ z. get_identity z s ≡ some j) (sym place) before))
                          ∙ r,
                    )
                | inr away ↦ (j, get_identity-set_identity identity a s ∙ rw away before, r)
              ]
        ];
  }
    where
      missed :
          {c : Bool} {o : Option Value} {v : Value}
          → c ≡ false
          → (if c then some mark else o) ≡ some v
          → o ≡ some v
      missed {c = true} e h = cc
      missed {c = false} e h = h

      own_found :
          (a : Text)
          → identity.address ≡ a
          → get_identity a (set_identity identity s) ≡ some identity
      own_found a at =
          get_identity-set_identity identity a s ∙ rw ((text_eq_iff identity.address a).1 at) refl

      other_key :
          (j : Identity) (a : Text)
          → identity.address ≡ a
          → identity ≡ j
          → text_eq
              (get_identity_by_role_key identity.role identity.address)
              (get_identity_by_role_key j.role a)
            ≡ false
          → ⊥
      other_key j a at same miss =
          let e : get_identity_by_role_key identity.role identity.address
              ≡ get_identity_by_role_key j.role a =
            ap₂ (λ i z. get_identity_by_role_key (i.role) z) same at in
          cc (miss, (text_eq_iff _ _).1 e)

      split_keys :
          (role a : Text)
          → IsPlain a
          → get_identity_by_role_key identity.role identity.address
            ≡ get_identity_by_role_key role a
          → (identity.role ≡ role) × (identity.address ≡ a)
      split_keys role a pa e = split_key identity.role role identity.address a plain pa (
          sym (append_assoc identity.role (0 ∷ []) identity.address)
          ∙ (ap (drop 1) e ∙ append_assoc role (0 ∷ []) a))
