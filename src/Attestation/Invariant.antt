-- ===== src/Attestation/Invariant.antt =====
-- What every history of the contract keeps.
use energy_chain.Shared.{
  ℕ, suc, ◌≤◌, ◌≡◌, ◌≢◌, refl, sym, ap, ◌∙◌, false, List, [], ◌∷◌, ◌++◌, ◌==◌, arith, inl, inr,
  Bool-cases, ==_iff,
}
use energy_chain.Shared.Text.{Text, text_eq, text_eq_iff}
use energy_chain.Attestation.{
  Attestation, State, Context, put, put_text, initial, attestation_of, store, Transaction,
  execute_all,
}
use energy_chain.Attestation.Steps.{execute_all-Keeps}
use energy_chain.Attestation.Listing.{
  select, log_of, put-here, put-there, put-before, select-suc, log_of-suc,
}

-- The ids are those from 1 to the total. A hash that is known leads to the attestation of that hash,
-- and an attestation's hash leads back to its id; so the ids and the known hashes correspond. The list
-- of a submitter has exactly the ids of its attestations, in ascending order, so has the list of a
-- type, and the events are exactly those of the attestations.
pub record IsWellFormed (s : State) : Type 0 where
  pub hashed :
      (h : ℕ)
      → s.hash_to_id h ≢ 0
      → (s.hash_to_id h ≤ s.total_attestations) × ((s.attestations (s.hash_to_id h)).data_hash ≡ h)
  pub identified :
      (id : ℕ)
      → 1 ≤ id
      → id ≤ s.total_attestations
      → ((s.attestations id).data_hash ≢ 0) × (s.hash_to_id (s.attestations id).data_hash ≡ id)
  pub by_submitter :
      (a : ℕ)
      → s.submitter_attestations a
        ≡ select (λ id. a == (s.attestations id).submitter) s.total_attestations
  pub by_type :
      (t : Text)
      → s.type_attestations t
        ≡ select (λ id. text_eq t (s.attestations id).data_type) s.total_attestations
  pub logged : s.events ≡ log_of s.attestations s.total_attestations

initial-IsWellFormed : IsWellFormed initial
unfolding initial select log_of
initial-IsWellFormed = record {
  hashed = λ h ne. elim (ne refl) [ ];
  identified = λ id low high. elim (no_id id low high) [ ];
  by_submitter = λ a. refl;
  by_type = λ t. refl;
  logged = refl;
}
  where
    no_id : (id : ℕ) → 1 ≤ id → id ≤ 0 → 1 ≤ 0
    no_id id low high = omega arith

module _ (c : Context) (h : ℕ) (data_type memo : Text) (s : State) where
  abbrev n : ℕ
  n = s.total_attestations

  abbrev new : Attestation
  new = attestation_of c h data_type memo

  -- The ids up to the total keep what is stored under them.
  store-before : (id : ℕ) → id ≤ n → put s.attestations (suc n) new id ≡ s.attestations id
  store-before id le = put-before s.attestations n id new le

  store-hashed :
      IsWellFormed s
      → (k : ℕ) → put s.hash_to_id h (suc n) k ≢ 0
      → (put s.hash_to_id h (suc n) k ≤ suc n)
        × ((put s.attestations (suc n) new (put s.hash_to_id h (suc n) k)).data_hash ≡ k)
  unfolding attestation_of
  store-hashed v k ne = elim (Bool-cases (k == h)) [
    | inl same ↦ (
      rw same (omega arith),
      rw (same, put-here s.attestations (suc n) new) (sym ((==_iff k h).0 same)),
    )
    | inr other ↦
        let known = v.hashed k (rw other at ne) in
        (
          rw other (omega (arith, known.0)),
          rw (other, store-before (s.hash_to_id k) known.0) known.1,
        )
  ]

  store-identified :
      IsWellFormed s
      → h ≢ 0
      → s.hash_to_id h ≡ 0
      → (id : ℕ) → 1 ≤ id
      → id ≤ suc n
      → ((put s.attestations (suc n) new id).data_hash ≢ 0)
        × (put s.hash_to_id h (suc n) (put s.attestations (suc n) new id).data_hash ≡ id)
  unfolding attestation_of
  store-identified v real fresh id low high = elim (Bool-cases (id == suc n)) [
    | inl same ↦
        (rw same real, rw same (put-here s.hash_to_id h (suc n) ∙ sym ((==_iff id (suc n)).0 same)))
    | inr other ↦
        let below : id ≤ n = older id high other in
        let known = v.identified id low below in
        let differs : (s.attestations id).data_hash ≢ h =
          λ e. clash id low ((sym known.1 ∙ ap s.hash_to_id e) ∙ fresh) in
        (
          rw other known.0,
          rw other
              (put-there s.hash_to_id h (suc n) (s.attestations id).data_hash differs ∙ known.1),
        )
  ]
    where
      older : (id : ℕ) → id ≤ suc n → id == suc n ≡ false → id ≤ n
      older id high other = ground (arith, ==_iff id (suc n))

      clash : (id : ℕ) → 1 ≤ id → ¬ (id ≡ 0)
      clash id low e = omega arith

  store-by_submitter :
      IsWellFormed s
      → (a : ℕ)
      → put s.submitter_attestations c.sender (s.submitter_attestations c.sender ++ (suc n ∷ [])) a
        ≡ select (λ id. a == (put s.attestations (suc n) new id).submitter) (suc n)
  unfolding attestation_of
  store-by_submitter v a =
      let p = (λ (id : ℕ). a == (s.attestations id).submitter) in
      let q = (λ (id : ℕ). a == (put s.attestations (suc n) new id).submitter) in
      let step =
        select-suc p q n (a == c.sender) (s.submitter_attestations a) (v.by_submitter a)
          (λ id le. ap (λ x. a == x.submitter) (store-before id le))
          (ap (λ x. a == x.submitter) (put-here s.attestations (suc n) new)) in
      elim (Bool-cases (a == c.sender)) [
        | inl same ↦ rw same (
            ap (λ z. s.submitter_attestations z ++ (suc n ∷ [])) (sym ((==_iff a c.sender).0 same))
            ∙ (rw same at step))
        | inr other ↦ rw other (rw other at step)
      ]

  store-by_type :
      IsWellFormed s
      → (t : Text)
      → put_text s.type_attestations data_type (s.type_attestations data_type ++ (suc n ∷ [])) t
        ≡ select (λ id. text_eq t (put s.attestations (suc n) new id).data_type) (suc n)
  unfolding attestation_of
  store-by_type v t =
      let p = (λ (id : ℕ). text_eq t (s.attestations id).data_type) in
      let q = (λ (id : ℕ). text_eq t (put s.attestations (suc n) new id).data_type) in
      let step =
        select-suc p q n (text_eq t data_type) (s.type_attestations t) (v.by_type t)
          (λ id le. ap (λ x. text_eq t x.data_type) (store-before id le))
          (ap (λ x. text_eq t x.data_type) (put-here s.attestations (suc n) new)) in
      elim (Bool-cases (text_eq t data_type)) [
        | inl same ↦ rw same (
            ap (λ z. s.type_attestations z ++ (suc n ∷ [])) (sym ((text_eq_iff t data_type).0 same))
            ∙ (rw same at step))
        | inr other ↦ rw other (rw other at step)
      ]

  -- A new attestation of a hash that is not zero and not known keeps the contract well-formed.
  pub store-IsWellFormed :
      IsWellFormed s → h ≢ 0 → s.hash_to_id h ≡ 0 → IsWellFormed (store c h data_type memo s)
  unfolding store attestation_of
  store-IsWellFormed v real fresh = record {
    hashed = store-hashed v;
    identified = store-identified v real fresh;
    by_submitter = store-by_submitter v;
    by_type = store-by_type v;
    logged =
        log_of-suc s.attestations (put s.attestations (suc n) new) n s.events new v.logged
          store-before (put-here s.attestations (suc n) new);
  }

-- The contract is well-formed after any transactions, by any senders, in any blocks.
pub execute_all-IsWellFormed : (ts : List Transaction) → IsWellFormed (execute_all ts initial)
execute_all-IsWellFormed ts =
    execute_all-Keeps IsWellFormed
      (λ c h data_type memo s v real fresh. store-IsWellFormed c h data_type memo s v real fresh) ts
      initial initial-IsWellFormed
