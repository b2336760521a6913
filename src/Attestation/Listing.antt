-- ===== src/Attestation/Listing.antt =====
-- Lists of ids by what is stored under them, and the log, as the storage of the contract determines
-- them.
use energy_chain.Shared.{
  ℕ, zero, suc, ◌≤◌, ◌≡◌, ◌≢◌, refl, sym, ◌∙◌, Bool, true, false, List, [], ◌∷◌, ◌++◌,
  if◌then◌else◌, arith, ==_iff, append-nil,
}
use energy_chain.Attestation.{Attestation, DataAttested, put}

-- The ids from 1 to n that pass a test, in ascending order.
unfoldable pub select : (ℕ → Bool) → ℕ → List ℕ
select p zero = []
select p (suc n) = select p n ++ (if p (suc n) then suc n ∷ [] else [])

-- The event of an attestation.
abbrev pub event_of : ℕ → Attestation → DataAttested
event_of id a = record {
  id = id;
  data_hash = a.data_hash;
  submitter = a.submitter;
  data_type = a.data_type;
  timestamp = a.timestamp;
  block_number = a.block_number;
}

-- The events of the ids from 1 to n, in ascending order.
unfoldable pub log_of : (ℕ → Attestation) → ℕ → List DataAttested
log_of m zero = []
log_of m (suc n) = log_of m n ++ (event_of (suc n) (m (suc n)) ∷ [])

module _ {ℓ} {A : Type ℓ} (m : ℕ → A) (k : ℕ) (v : A) where
  pub put-here : put m k v k ≡ v
  put-here = ground (arith, ==_iff k k)

  pub put-there : (j : ℕ) → j ≢ k → put m k v j ≡ m j
  put-there j h = ground (arith, ==_iff j k)

pub select-agree :
    (p q : ℕ → Bool) (n : ℕ) → ((id : ℕ) → id ≤ n → p id ≡ q id) → select p n ≡ select q n
unfolding select
select-agree p q zero h = refl
select-agree p q (suc n) h =
    cc (select-agree p q n (λ id le. h id (omega arith)), h (suc n) (omega arith))

pub log_of-agree :
    (m k : ℕ → Attestation) (n : ℕ) → ((id : ℕ) → id ≤ n → m id ≡ k id) → log_of m n ≡ log_of k n
unfolding log_of
log_of-agree m k zero h = refl
log_of-agree m k (suc n) h =
    cc (log_of-agree m k n (λ id le. h id (omega arith)), h (suc n) (omega arith))

-- What is written under the next id is not among the ids before it.
pub put-before {ℓ} :
    {A : Type ℓ} (m : ℕ → A) (n id : ℕ) (v : A) → id ≤ n → put m (suc n) v id ≡ m id
put-before m n id v le = put-there m (suc n) v id (λ e. omega arith)

-- One more id, and whether it passes the test.
pub select-suc :
    (p q : ℕ → Bool) (n : ℕ) (b : Bool) (l : List ℕ)
    → l ≡ select p n
    → ((id : ℕ) → id ≤ n → q id ≡ p id)
    → q (suc n) ≡ b
    → (if b then l ++ (suc n ∷ []) else l) ≡ select q (suc n)
unfolding select
select-suc p q n true l e h last = cc (e, select-agree q p n h, last)
select-suc p q n false l e h last = sym (append-nil l) ∙ cc (e, select-agree q p n h, last)

-- One more event.
pub log_of-suc :
    (m k : ℕ → Attestation) (n : ℕ) (l : List DataAttested) (a : Attestation)
    → l ≡ log_of m n
    → ((id : ℕ) → id ≤ n → k id ≡ m id)
    → k (suc n) ≡ a
    → l ++ (event_of (suc n) a ∷ []) ≡ log_of k (suc n)
unfolding log_of
log_of-suc m k n l a e h last = cc (e, log_of-agree k m n h, last)
