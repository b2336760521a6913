-- ===== src/Attestation/Batch.antt =====
-- A batch of attestations against attestations one by one.
use energy_chain.Shared.{
  ℕ, suc, ◌≤◌, ◌≡◌, ◌≢◌, ◌↔◌, refl, sym, ap, subst, true, false, List, [], ◌∷◌, Option, none, some,
  length, leb, arith,
}
use mathlib.Core.Option.{none-ne-some, some-injective}
use energy_chain.Shared.Text.{Text}
use energy_chain.Attestation.{
  State, Context, Result, reverted, returned, is_full, store, attest, attest_each, with_id,
  batch_attest,
}
use energy_chain.Attestation.Steps.{
  attest-passed, attest_each-nil, attest_each-passed, batch_attest-passed,
}

-- One transaction of `attest` behind the other, all of which return.
after_attest : Result (ℕ × State) → (State → Option State) → Option State
after_attest (reverted reason) f = none
after_attest (returned (id, t)) f = f t

unfoldable pub attest_in_turn : Context → List ℕ → Text → Text → State → Option State
unfolding after_attest
attest_in_turn c [] data_type memo s = some s
attest_in_turn c (h ∷ hashes) data_type memo s =
    after_attest (attest c h data_type memo s) (attest_in_turn c hashes data_type memo)

after_attest-some :
    (r : Result (ℕ × State)) (f : State → Option State) (t : State)
    → after_attest r f ≡ some t
    → (id : ℕ) × (u : State) × (r ≡ returned (id, u)) × (f u ≡ some t)
unfolding after_attest
after_attest-some (reverted reason) f t e = elim (none-ne-some t e) [ ]
after_attest-some (returned (id, u)) f t e = (id, u, refl, e)

attest-returns :
    (c : Context) (h : ℕ) (data_type memo : Text) (s : State)
    → h ≢ 0
    → s.hash_to_id h ≡ 0
    → is_full s ≡ false
    → attest c h data_type memo s ≡ returned (suc s.total_attestations, store c h data_type memo s)
unfolding attest
attest-returns c h data_type memo s real fresh room = ground arith

attest_each-returns :
    (c : Context) (h : ℕ) (hashes : List ℕ) (data_type memo : Text) (s t : State)
    → h ≢ 0
    → s.hash_to_id h ≡ 0
    → is_full s ≡ false
    → attest_each c hashes data_type memo (store c h data_type memo s) ≡ returned t
    → attest_each c (h ∷ hashes) data_type memo s ≡ returned t
unfolding attest_each
attest_each-returns c h hashes data_type memo s t real fresh room e = ground arith

in_turn-of_each :
    (c : Context) (hashes : List ℕ) (data_type memo : Text) (s t : State)
    → attest_each c hashes data_type memo s ≡ returned t
    → attest_in_turn c hashes data_type memo s ≡ some t
unfolding attest_in_turn
in_turn-of_each c [] data_type memo s t e = ap some (attest_each-nil c data_type memo s t e)
in_turn-of_each c (h ∷ hashes) data_type memo s t e =
    let (real, fresh, room, rest) = attest_each-passed c h hashes data_type memo s t e in
    rw (attest-returns c h data_type memo s real fresh room)
      (in_turn-of_each c hashes data_type memo (store c h data_type memo s) t rest)

each-of_in_turn :
    (c : Context) (hashes : List ℕ) (data_type memo : Text) (s t : State)
    → attest_in_turn c hashes data_type memo s ≡ some t
    → attest_each c hashes data_type memo s ≡ returned t
unfolding attest_in_turn attest_each
each-of_in_turn c [] data_type memo s t e = ap returned (some-injective s t e)
each-of_in_turn c (h ∷ hashes) data_type memo s t e =
    let (id, u, first, rest) =
      after_attest-some (attest c h data_type memo s) (attest_in_turn c hashes data_type memo) t
        e in
    let (real, fresh, room, _, same) = attest-passed c h data_type memo s u id first in
    attest_each-returns c h hashes data_type memo s t real fresh room (
      subst (λ z. attest_each c hashes data_type memo z ≡ returned t) same
        (each-of_in_turn c hashes data_type memo u t rest))

leb-of_le : (m n : ℕ) → m ≤ n → leb m n ≡ true
leb-of_le m n h = ground arith

batch_attest-returns :
    (c : Context) (hashes : List ℕ) (data_type memo : Text) (s t : State)
    → 1 ≤ length hashes
    → length hashes ≤ 100
    → is_full s ≡ false
    → attest_each c hashes data_type memo s ≡ returned t
    → batch_attest c hashes data_type memo s ≡ returned (suc s.total_attestations, t)
unfolding batch_attest with_id
batch_attest-returns c hashes data_type memo s t low high room e =
    ground (arith, leb-of_le (length hashes) 100 high)

has_room :
    (c : Context) (hashes : List ℕ) (data_type memo : Text) (s t : State)
    → 1 ≤ length hashes
    → attest_each c hashes data_type memo s ≡ returned t
    → is_full s ≡ false
has_room c [] data_type memo s t low e = ground arith
has_room c (h ∷ hashes) data_type memo s t low e =
    (attest_each-passed c h hashes data_type memo s t e).2

-- A batch returns exactly when it has from 1 to 100 hashes and attesting them one by one, by the same
-- sender in the same block, returns each time; it leaves the same state then, and its result is the id
-- of the first of them.
pub batch_attest_iff :
    (c : Context) (hashes : List ℕ) (data_type memo : Text) (s t : State) (start : ℕ)
    → (batch_attest c hashes data_type memo s ≡ returned (start, t)) ↔ (
        (1 ≤ length hashes)
        × (length hashes ≤ 100)
        × (start ≡ suc s.total_attestations)
        × (attest_in_turn c hashes data_type memo s ≡ some t))
batch_attest_iff c hashes data_type memo s t start = (
  (λ e.
      let (low, high, first, each) = batch_attest-passed c hashes data_type memo s t start e in
      (low, high, first, in_turn-of_each c hashes data_type memo s t each)),
  (λ h.
      let each = each-of_in_turn c hashes data_type memo s t h.3 in
      subst (λ z. batch_attest c hashes data_type memo s ≡ returned (z, t)) (sym h.2)
        (batch_attest-returns c hashes data_type memo s t h.0 h.1
          (has_room c hashes data_type memo s t h.0 each) each)),
)
