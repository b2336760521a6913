-- ===== src/Chain/Identity/Standing.antt =====
-- The standing of an identity over the messages of chain/x/identity/keeper/msg_server.go: who can
-- change it, and that a revocation is for ever.
use energy_chain.Shared.{
  ℕ, ◌≡◌, ◌≢◌, refl, sym, ap, ◌∙◌, subst, Bool, true, false, List, Option, none, some, ◌&&◌, arith,
  inl, inr, ◌⊎◌, Bool-cases,
}
use mathlib.Core.Option.{none-ne-some, some-injective}
use energy_chain.Shared.Text.{Text, text_eq, text_eq_iff}
use energy_chain.Chain.Identity.{
  Identity, KvStore, status_active, status_revoked, set_identity, get_identity, plays, has_role,
  Message, is_admin, handle, run,
}
use energy_chain.Chain.Identity.Index.{IsIndexed, get_identity-set_identity}
use energy_chain.Chain.Identity.Steps.{creator_of, IsValid, AreValid, Change, handle_accepted}
use energy_chain.Chain.Identity.Roles.{run_inv}

-- An identity that is revoked, with its role and the time of its registration.
abbrev pub IsRevoked : Text → Text → ℕ → KvStore → Type 0
IsRevoked a role since s =
    (i : Identity) × (get_identity a s ≡ some i)
    × (i.status ≡ status_revoked)
    × (i.role ≡ role)
    × (i.registered_at ≡ since)

Change-IsRevoked :
    {admin : Bool} {creator : Text} (a role : Text) (since : ℕ) (s : KvStore) (i : Identity)
    → Change admin creator s i
    → IsRevoked a role since s
    → IsRevoked a role since (set_identity i s)
Change-IsRevoked a role since s i change (j, there, status, r, at) =
    elim (Bool-cases (text_eq i.address a)) [
      | inr away ↦ (j, get_identity-set_identity i a s ∙ rw away there, status, r, at)
      | inl hit ↦
          let own =
            subst (λ z. get_identity z s ≡ some j) (sym ((text_eq_iff i.address a).0 hit)) there in
          let (status2, r2, at2) = again change own in
          (i, get_identity-set_identity i a s ∙ rw hit refl, status2, r2 ∙ r, at2 ∙ at)
    ]
  where
    again :
        {admin : Bool} {creator : Text}
        → Change admin creator s i
        → get_identity i.address s ≡ some j
        → (i.status ≡ status_revoked) × (i.role ≡ j.role) × (i.registered_at ≡ j.registered_at)
    again (Change.added admin plain missing active) own =
        absurd (none-ne-some j (sym missing ∙ own))
    again (Change.renamed k may found address role2 status2 at2) own =
        let same = some-injective k j (sym found ∙ own) in
        (
          status2 ∙ (ap (λ z. z.status) same ∙ status),
          role2 ∙ ap (λ z. z.role) same,
          at2 ∙ ap (λ z. z.registered_at) same,
        )
    again (Change.ended k admin found role2 status2 at2) own =
        let same = some-injective k j (sym found ∙ own) in
        (status2, role2 ∙ ap (λ z. z.role) same, at2 ∙ ap (λ z. z.registered_at) same)

neither : (c : Bool) → (c && false) ≡ false
neither true = refl
neither false = refl

-- An identity that is revoked, on a store whose index is right: after any messages whose new
-- addresses have no zero byte it is still there and revoked, with its role and the time of its
-- registration, and nobody at this address has any role.
pub run-IsRevoked :
    (authority : Text) (messages : List (ℕ × Message)) (s : KvStore) (a : Text) (i : Identity)
    → AreValid messages
    → IsIndexed s
    → get_identity a s ≡ some i
    → i.status ≡ status_revoked
    → IsRevoked a i.role i.registered_at (run authority messages s)
      × ((role : Text) → has_role a role (run authority messages s) ≡ false)
unfolding has_role plays
run-IsRevoked authority messages s a i valid indexed there status =
    let P = λ (t : KvStore). IsRevoked a i.role i.registered_at t in
    let kept : P (run authority messages s) =
      (run_inv authority P
        (λ now m s t d v e h.
          let (j, same, change) = handle_accepted authority now s d m t v e in
          subst P (sym same) (Change-IsRevoked a i.role i.registered_at s j change h))
        messages s valid indexed (i, there, status, refl, refl)).1 in
    (kept, λ role. rw (kept.1) (inactive kept.0 role kept.2))
  where
    inactive :
        (j : Identity) (role : Text)
        → j.status ≡ status_revoked
        → (text_eq j.role role && text_eq j.status status_active) ≡ false
    inactive j role e = rw e (neither (text_eq j.role role))

-- What only an administrator may change of an identity.
abbrev pub standing : Option Identity → Option (Text × Text × ℕ)
standing none = none
standing (some i) = some (i.role, i.status, i.registered_at)

Change-standing :
    {creator : Text} (a : Text) (s : KvStore) (i : Identity)
    → Change false creator s i
    → (standing (get_identity a (set_identity i s)) ≡ standing (get_identity a s))
      × (creator ≢ a → get_identity a (set_identity i s) ≡ get_identity a s)
Change-standing a s i (Change.added admin plain missing active) = cc
Change-standing a s i (Change.ended j admin there role status at) = cc
Change-standing {creator} a s i (Change.renamed j may there address role status at) =
    elim (Bool-cases (text_eq i.address a)) [
      | inr away ↦
          let same = get_identity-set_identity i a s ∙ rw away refl in
          (ap standing same, λ ne. same)
      | inl hit ↦
          let place = (text_eq_iff i.address a).0 hit in
          let set_there : get_identity a (set_identity i s) ≡ some i =
            get_identity-set_identity i a s ∙ rw hit refl in
          let equal : standing (some i) ≡ standing (some j) = ground (arith, role, status, at) in
          let before : get_identity a s ≡ some j =
            subst (λ z. get_identity z s ≡ some j) place there in
          (
            ap standing set_there ∙ (equal ∙ sym (ap standing before)),
            λ ne. absurd (ne (own may ∙ place)),
          )
    ]
  where
    own : (false ≡ true) ⊎ (creator ≡ i.address) → creator ≡ i.address
    own (inl never) = cc
    own (inr e) = e

-- A message that is accepted, whose new address has no zero byte, on a store whose index is right and
-- from somebody who is no administrator: nobody's role, status and time of registration is changed,
-- and nothing at all of an identity that is not the sender's own.
pub handle-standing :
    (authority : Text) (now : ℕ) (message : Message) (s t : KvStore) (a : Text)
    → IsValid message
    → IsIndexed s
    → is_admin authority (creator_of message) s ≡ false
    → handle authority now message s ≡ some t
    → (standing (get_identity a t) ≡ standing (get_identity a s))
      × (creator_of message ≢ a → get_identity a t ≡ get_identity a s)
handle-standing authority now message s t a valid indexed outsider e =
    let (i, same, change) = handle_accepted authority now s indexed message t valid e in
    subst
      (λ z.
        (standing (get_identity a z) ≡ standing (get_identity a s))
        × (creator_of message ≢ a → get_identity a z ≡ get_identity a s))
      (sym same)
      (Change-standing a s i (subst (λ c. Change c (creator_of message) s i) outsider change))
