-- ===== src/Attestation/History.antt =====
-- What later transactions do to an attestation.
use energy_chain.Shared.{ℕ, suc, ◌≤◌, ◌≡◌, ◌≢◌, refl, sym, ap, ◌∙◌, subst, List, some, arith}
use energy_chain.Shared.Text.{Text, codes}
use energy_chain.Attestation.{
  Attestation, State, Context, reverted, returned, attestation_of, store, attest, get_attestation,
  verify_by_hash, Transaction, execute_all,
}
use energy_chain.Attestation.Listing.{put-here, put-there, put-before}
use energy_chain.Attestation.Steps.{attest-passed, execute_all-Keeps}

-- A later state: no fewer attestations, the same ones under the old ids, and the same ids for the hashes
-- that were known.
abbrev pub IsLater : State → State → Type 0
IsLater s t =
    (s.total_attestations ≤ t.total_attestations)
    × ((id : ℕ) → id ≤ s.total_attestations → t.attestations id ≡ s.attestations id)
    × ((h : ℕ) → s.hash_to_id h ≢ 0 → t.hash_to_id h ≡ s.hash_to_id h)

store-IsLater :
    (start : State) (c : Context) (h : ℕ) (data_type memo : Text) (s : State)
    → IsLater start s
    → h ≢ 0
    → s.hash_to_id h ≡ 0
    → IsLater start (store c h data_type memo s)
unfolding store
store-IsLater start c h data_type memo s (more, kept, known) real fresh =
    let n = s.total_attestations in
    let new = attestation_of c h data_type memo in
    (
      omega (arith, more),
      (λ id le. put-before s.attestations n id new (omega (arith, more, le)) ∙ kept id le),
      (λ k ne.
          let other : k ≢ h = λ e. ne (sym (known k ne) ∙ (ap s.hash_to_id e ∙ fresh)) in
          put-there s.hash_to_id h (suc n) k other ∙ known k ne),
    )

execute_all-IsLater : (ts : List Transaction) (s : State) → IsLater s (execute_all ts s)
execute_all-IsLater ts s =
    execute_all-Keeps (IsLater s)
      (λ c h data_type memo t later real fresh.
        store-IsLater s c h data_type memo t later real fresh)
      ts s (omega arith, (λ id le. refl), (λ h ne. refl))

module _ (s : State) (h id : ℕ) (a : Attestation) where
  verify_by_hash-known :
      s.hash_to_id h ≡ id → id ≢ 0 → s.attestations id ≡ a → verify_by_hash h s ≡ some a
  unfolding verify_by_hash
  verify_by_hash-known e ne same = ground arith

  get_attestation-known :
      id ≢ 0 → id ≤ s.total_attestations → s.attestations id ≡ a → get_attestation id s ≡ returned a
  unfolding get_attestation
  get_attestation-known ne le same = ground arith

attest-again :
    (c : Context) (h : ℕ) (data_type memo : Text) (s : State)
    → h ≢ 0
    → s.hash_to_id h ≢ 0
    → attest c h data_type memo s ≡ reverted (codes "hash already attested")
unfolding attest
attest-again c h data_type memo s real known = ground arith

-- What a new attestation leaves under its id and its hash.
stored :
    (c : Context) (h : ℕ) (data_type memo : Text) (s : State)
    → let t = store c h data_type memo s in
      (t.total_attestations ≡ suc s.total_attestations)
      × (t.attestations (suc s.total_attestations) ≡ attestation_of c h data_type memo)
      × (t.hash_to_id h ≡ suc s.total_attestations)
unfolding store
stored c h data_type memo s = (
  refl,
  put-here s.attestations (suc s.total_attestations) (attestation_of c h data_type memo),
  put-here s.hash_to_id h (suc s.total_attestations),
)

-- Once a hash is attested, whatever transactions follow: it is verified with exactly the submitter,
-- the time, the block and the texts of that attestation, its id gives the same, and every further attempt
-- to attest it, by anyone, reverts.
pub attest-IsPermanent :
    (c : Context) (h : ℕ) (data_type memo : Text) (s t : State) (id : ℕ) (ts : List Transaction)
    (d : Context) (other_type other_memo : Text)
    → attest c h data_type memo s ≡ returned (id, t)
    → let later = execute_all ts t in
      (verify_by_hash h later ≡ some (attestation_of c h data_type memo))
      × (get_attestation id later ≡ returned (attestation_of c h data_type memo))
      × (attest d h other_type other_memo later ≡ reverted (codes "hash already attested"))
attest-IsPermanent c h data_type memo s t id ts d other_type other_memo e =
    let (real, fresh, _, named, same) = attest-passed c h data_type memo s t id e in
    let n = suc s.total_attestations in
    let new = attestation_of c h data_type memo in
    let (total, written, keyed) =
      subst (λ z. (z.total_attestations ≡ n) × (z.attestations n ≡ new) × (z.hash_to_id h ≡ n))
        (sym same) (stored c h data_type memo s) in
    let (more, kept, known) = execute_all-IsLater ts t in
    let later = execute_all ts t in
    let positive : n ≢ 0 = λ z. omega (arith, z) in
    let found : later.hash_to_id h ≡ n = known h (λ z. positive (sym keyed ∙ z)) ∙ keyed in
    let content : later.attestations n ≡ new = kept n (omega (arith, total)) ∙ written in
    (
      verify_by_hash-known later h n new found positive content,
      subst (λ z. get_attestation z later ≡ returned new) (sym named)
          (get_attestation-known later h n new positive (omega (arith, total, more)) content),
      attest-again d h other_type other_memo later real (λ z. positive (sym found ∙ z)),
    )
