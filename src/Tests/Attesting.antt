-- ===== src/Tests/Attesting.antt =====
-- Transactions of the attestation contract.
use energy_chain.Shared.{ℕ, suc, ◌≤◌, ◌≡◌, ◌↔◌, refl, List, [], ◌∷◌, some, length}
use energy_chain.Shared.Text.{codes}
use energy_chain.Attestation.{
  State, Context, reverted, returned, initial, attestation_of, uint64, is_full, store, attest,
  attest_each, with_id, batch_attest, get_attestation, verify_by_hash,
  get_attestations_by_submitter, get_attestations_by_type, Transaction, attests, batches, committed,
  execute, execute_all,
}
use energy_chain.Attestation.Invariant.{IsWellFormed, execute_all-IsWellFormed}
use energy_chain.Attestation.History.{attest-IsPermanent}
use energy_chain.Attestation.Batch.{attest_in_turn, batch_attest_iff}

contract : Unit {0}
unfolding initial attestation_of uint64 is_full store attest attest_each with_id batch_attest
    get_attestation verify_by_hash get_attestations_by_submitter get_attestations_by_type committed
    execute execute_all
contract = tt

abbrev alice : Context
alice = record { sender = 1; time = 1000; number = 5 }

abbrev bob : Context
bob = record { sender = 2; time = 2000; number = 6 }

-- One hash, a batch of two, and a batch that holds the first hash again.
abbrev history : List Transaction
history =
    attests alice 77 (codes "meter_reading") (codes "a")
    ∷ batches bob (78 ∷ 79 ∷ []) (codes "vpp_contract") []
    ∷ batches bob (80 ∷ 77 ∷ []) (codes "vpp_contract") []
    ∷ []

-- The last batch leaves nothing behind.
three_listed :
    get_attestations_by_type (codes "vpp_contract") (execute_all history initial) ≡ 2 ∷ 3 ∷ []
unfolding contract
three_listed = refl

execute_all-IsWellFormed_example : IsWellFormed (execute_all history initial)
execute_all-IsWellFormed_example = execute_all-IsWellFormed history

first : State
unfolding contract
first = store alice 77 (codes "meter_reading") (codes "a") initial

first_returns : attest alice 77 (codes "meter_reading") (codes "a") initial ≡ returned (1, first)
unfolding contract first
first_returns = refl

attest-IsPermanent_example :
    let later = execute_all history first in
    (verify_by_hash 77 later ≡ some (attestation_of alice 77 (codes "meter_reading") (codes "a")))
    × (get_attestation 1 later
        ≡ returned (attestation_of alice 77 (codes "meter_reading") (codes "a")))
    × (attest bob 77 [] [] later ≡ reverted (codes "hash already attested"))
attest-IsPermanent_example =
    attest-IsPermanent alice 77 (codes "meter_reading") (codes "a") initial first 1 history bob []
      [] first_returns

second : State
unfolding contract
second = store bob 79 [] [] (store bob 78 [] [] initial)

abbrev both : List ℕ
both = 78 ∷ 79 ∷ []

batch_attest_iff_example : (batch_attest bob both [] [] initial ≡ returned (1, second)) ↔ (
    (1 ≤ length both)
    × (length both ≤ 100)
    × (1 ≡ suc initial.total_attestations)
    × (attest_in_turn bob both [] [] initial ≡ some second))
batch_attest_iff_example = batch_attest_iff bob both [] [] initial second 1
