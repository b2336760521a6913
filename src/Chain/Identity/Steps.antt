-- ===== src/Chain/Identity/Steps.antt =====
-- What an accepted message of chain/x/identity/keeper/msg_server.go does: it sets one identity.
use energy_chain.Shared.{
  ℕ, ◌≡◌, refl, sym, ap, ◌∙◌, subst, Bool, true, false, not, List, [], ◌∷◌, Option, none, some,
  ◌&&◌, if◌then◌else◌, inl, inr, ◌⊎◌, Option-cases,
}
use mathlib.Core.Option.{none-ne-some, some-injective}
use energy_chain.Shared.Text.{Text, text_eq, text_eq_iff}
use energy_chain.Chain.Keys.{IsPlain}
use energy_chain.Chain.Kv.{get}
use energy_chain.Chain.Identity.{
  Identity, Value, KvStore, status_active, status_revoked, get_identity_key, set_identity,
  identity_of, get_identity, has_value, is_registered, Message, registers, updates, revokes,
  is_admin, register_identity, updated, update_found, update_identity, revoked, revoke_found,
  revoke_identity, handle,
}
use energy_chain.Chain.Identity.Index.{IsIndexed, set_identity-IsIndexed}

abbrev pub creator_of : Message → Text
creator_of (registers creator address name role metadata) = creator
creator_of (updates creator address name metadata) = creator
creator_of (revokes creator address reason) = creator

-- What `ValidateBasic` has checked of the address that is registered.
abbrev pub IsValid : Message → Type 0
IsValid (registers creator address name role metadata) = IsPlain address
IsValid (updates creator address name metadata) = Unit
IsValid (revokes creator address reason) = Unit

abbrev pub AreValid : List (ℕ × Message) → Type 0
AreValid [] = Unit
AreValid ((now, message) ∷ messages) = IsValid message × AreValid messages

-- The identity that is set: a new one, one with another name, or one that is revoked.
pub data Change (admin : Bool) (creator : Text) (s : KvStore) (i : Identity) : Type 0 where
  added :
      admin ≡ true
      → IsPlain i.address
      → get_identity i.address s ≡ none
      → i.status ≡ status_active
      → Change admin creator s i
  renamed :
      (j : Identity)
      → (admin ≡ true) ⊎ (creator ≡ i.address)
      → get_identity i.address s ≡ some j
      → i.address ≡ j.address
      → i.role ≡ j.role
      → i.status ≡ j.status
      → i.registered_at ≡ j.registered_at
      → Change admin creator s i
  ended :
      (j : Identity)
      → admin ≡ true
      → get_identity i.address s ≡ some j
      → i.role ≡ j.role
      → i.status ≡ status_revoked
      → i.registered_at ≡ j.registered_at
      → Change admin creator s i

unregistered : (a : Text) (s : KvStore) → is_registered a s ≡ false → get_identity a s ≡ none
unfolding is_registered has_value get_identity identity_of
unregistered a s e = ap identity_of (missing (get (get_identity_key a) s) e)
  where
    missing : (o : Option Value) → has_value o ≡ false → o ≡ none
    missing none e = refl
    missing (some v) e = cc

-- A refusal that was passed.
pub past {ℓ} :
    {A : Type ℓ} (c : Bool) {o : Option A} {t : A}
    → (if c then none else o) ≡ some t
    → (c ≡ false) × (o ≡ some t)
past true {t = t} e = absurd (none-ne-some t e)
past false e = (refl, e)

holds : (c : Bool) → not c ≡ false → c ≡ true
holds true e = refl
holds false e = cc

one_of : (c : Bool) (a b : Text) → (not c && not (text_eq a b)) ≡ false → (c ≡ true) ⊎ (a ≡ b)
one_of true a b e = inl refl
one_of false a b e = inr ((text_eq_iff a b).0 (holds (text_eq a b) e))

same_role :
    (i j k : Identity) (s : KvStore)
    → i.role ≡ j.role
    → get_identity i.address s ≡ some j
    → get_identity i.address s ≡ some k
    → k.role ≡ i.role
same_role i j k s role there e = ap (λ z. z.role) (some-injective k j (sym e ∙ there)) ∙ sym role

module _ (authority : Text) (now : ℕ) (s : KvStore) (indexed : IsIndexed s) where
  -- An identity that is found at an address is set there again.
  found_again :
      (a : Text) (i : Identity) → get_identity a s ≡ some i → get_identity i.address s ≡ some i
  found_again a i e = subst (λ z. get_identity z s ≡ some i) (sym (indexed.addressed a i e).0) e

  pub handle_accepted :
      (message : Message) (t : KvStore)
      → IsValid message
      → handle authority now message s ≡ some t
      → (i : Identity) × (t ≡ set_identity i s)
        × Change (is_admin authority (creator_of message) s) (creator_of message) s i
  unfolding handle register_identity update_identity update_found updated revoke_identity
      revoke_found revoked
  handle_accepted (registers creator a name role metadata) t valid e =
      let (admin, e2) = past (not (is_admin authority creator s)) e in
      let (fresh, e3) = past (is_registered a s) e2 in
      (
        _,
        sym (some-injective _ t e3),
        Change.added (holds _ admin) valid (unregistered a s fresh) refl,
      )
  handle_accepted (updates creator a name metadata) t valid e =
      elim (Option-cases (get_identity a s)) [
        | inl none_there ↦ absurd (
            none-ne-some t
              (sym (ap (update_found authority now creator a name metadata s) none_there) ∙ e))
        | inr (j, there) ↦
            let found = sym (ap (update_found authority now creator a name metadata s) there) ∙ e in
            let (may, e2) =
              past (not (is_admin authority creator s) && not (text_eq creator a)) found in
            let own = (indexed.addressed a j there).0 in
            (
              updated now name metadata j,
              sym (some-injective _ t e2),
              Change.renamed j
                  (subst (λ z. (is_admin authority creator s ≡ true) ⊎ (creator ≡ z)) (sym own)
                    (one_of (is_admin authority creator s) creator a may))
                  (found_again a j there) refl refl refl refl,
            )
      ]
  handle_accepted (revokes creator a reason) t valid e =
      let (admin, e2) = past (not (is_admin authority creator s)) e in
      elim (Option-cases (get_identity a s)) [
        | inl none_there ↦ absurd (none-ne-some t (sym (ap (revoke_found now s) none_there) ∙ e2))
        | inr (j, there) ↦
            let (standing, e3) =
              past (text_eq j.status status_revoked) (sym (ap (revoke_found now s) there) ∙ e2) in
            (
              revoked now j,
              sym (some-injective _ t e3),
              Change.ended j (holds _ admin) (found_again a j there) refl refl refl,
            )
      ]

  -- The index is right again.
  pub Change-IsIndexed :
      {admin : Bool} {creator : Text} (i : Identity)
      → Change admin creator s i
      → IsIndexed (set_identity i s)
  Change-IsIndexed i (Change.added admin plain missing active) =
      set_identity-IsIndexed i s indexed plain (λ j e. absurd (none-ne-some j (sym missing ∙ e)))
  Change-IsIndexed i (Change.renamed j may there address role status at) =
      set_identity-IsIndexed i s indexed (indexed.addressed i.address j there).1
        (λ k e. same_role i j k s role there e)
  Change-IsIndexed i (Change.ended j admin there role status at) =
      set_identity-IsIndexed i s indexed (indexed.addressed i.address j there).1
        (λ k e. same_role i j k s role there e)
