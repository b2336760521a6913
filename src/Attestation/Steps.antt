-- ===== src/Attestation/Steps.antt =====
-- What every attestation keeps, every transaction keeps, however it ends.
use energy_chain.Shared.{
  ℕ, suc, ◌≤◌, ◌≡◌, ◌≢◌, refl, sym, subst, false, List, [], ◌∷◌, length, arith,
}
use energy_chain.Shared.Text.{Text}
use energy_chain.Attestation.{
  State, Context, Result, reverted, returned, is_full, store, attest, attest_each, with_id,
  batch_attest, Transaction, attests, batches, committed, execute, execute_all,
}

-- What a call that did not revert has passed.
pub attest-passed :
    (c : Context) (h : ℕ) (data_type memo : Text) (s t : State) (id : ℕ)
    → attest c h data_type memo s ≡ returned (id, t)
    → (h ≢ 0)
      × (s.hash_to_id h ≡ 0)
      × (is_full s ≡ false)
      × (id ≡ suc s.total_attestations)
      × (t ≡ store c h data_type memo s)
unfolding attest
attest-passed c h data_type memo s t id e = ground arith

pub attest_each-nil :
    (c : Context) (data_type memo : Text) (s t : State)
    → attest_each c [] data_type memo s ≡ returned t
    → s ≡ t
unfolding attest_each
attest_each-nil c data_type memo s t e = ground arith

pub attest_each-passed :
    (c : Context) (h : ℕ) (hashes : List ℕ) (data_type memo : Text) (s t : State)
    → attest_each c (h ∷ hashes) data_type memo s ≡ returned t
    → (h ≢ 0)
      × (s.hash_to_id h ≡ 0)
      × (is_full s ≡ false)
      × (attest_each c hashes data_type memo (store c h data_type memo s) ≡ returned t)
unfolding attest_each
attest_each-passed c h hashes data_type memo s t e = ground arith

with_id-returned :
    (i id : ℕ) (r : Result State) (t : State)
    → with_id i r ≡ returned (id, t)
    → (id ≡ i) × (r ≡ returned t)
unfolding with_id
with_id-returned i id (reverted reason) t e = ground arith
with_id-returned i id (returned s) t e = ground arith

pub batch_attest-passed :
    (c : Context) (hashes : List ℕ) (data_type memo : Text) (s t : State) (id : ℕ)
    → batch_attest c hashes data_type memo s ≡ returned (id, t)
    → (1 ≤ length hashes)
      × (length hashes ≤ 100)
      × (id ≡ suc s.total_attestations)
      × (attest_each c hashes data_type memo s ≡ returned t)
unfolding batch_attest
batch_attest-passed c hashes data_type memo s t id e = ground (
  arith,
  with_id-returned (suc s.total_attestations) id (attest_each c hashes data_type memo s) t,
)

module _ {κ} (Keeps : State → Type κ)
    (step : (c : Context) (h : ℕ) (data_type memo : Text) (s : State)
      → Keeps s
      → h ≢ 0
      → s.hash_to_id h ≡ 0
      → Keeps (store c h data_type memo s)) where
  pub attest_each-Keeps :
      (c : Context) (hashes : List ℕ) (data_type memo : Text) (s t : State)
      → Keeps s
      → attest_each c hashes data_type memo s ≡ returned t
      → Keeps t
  attest_each-Keeps c [] data_type memo s t k e =
      subst Keeps (attest_each-nil c data_type memo s t e) k
  attest_each-Keeps c (h ∷ hashes) data_type memo s t k e =
      let (real, fresh, room, rest) = attest_each-passed c h hashes data_type memo s t e in
      attest_each-Keeps c hashes data_type memo (store c h data_type memo s) t
        (step c h data_type memo s k real fresh) rest

  committed-Keeps :
      (r : Result (ℕ × State)) (s : State)
      → Keeps s
      → ((id : ℕ) (t : State) → r ≡ returned (id, t) → Keeps t)
      → Keeps (committed r s)
  unfolding committed
  committed-Keeps (reverted reason) s k h = k
  committed-Keeps (returned (id, t)) s k h = h id t refl

  execute-Keeps : (t : Transaction) (s : State) → Keeps s → Keeps (execute t s)
  unfolding execute
  execute-Keeps (attests c h data_type memo) s k =
      committed-Keeps (attest c h data_type memo s) s k (λ id t e.
        let (real, fresh, _, _, same) = attest-passed c h data_type memo s t id e in
        subst Keeps (sym same) (step c h data_type memo s k real fresh))
  execute-Keeps (batches c hashes data_type memo) s k =
      committed-Keeps (batch_attest c hashes data_type memo s) s k (λ id t e.
        attest_each-Keeps c hashes data_type memo s t k
          (batch_attest-passed c hashes data_type memo s t id e).3)

  pub execute_all-Keeps : (ts : List Transaction) (s : State) → Keeps s → Keeps (execute_all ts s)
  unfolding execute_all
  execute_all-Keeps [] s k = k
  execute_all-Keeps (t ∷ ts) s k = execute_all-Keeps ts (execute t s) (execute-Keeps t s k)
