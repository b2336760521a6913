-- ===== src/Attestation.antt =====
-- The contract of contracts/contracts/EnergyDataAttestation.sol. Hashes and addresses are numbers, the
-- mappings are functions, which give the default value where nothing was written, and a transaction
-- that reverts leaves the state as it was.
pub mod Listing
pub mod Steps
pub mod Invariant
pub mod History
pub mod Batch
use energy_chain.Shared.{
  ℕ, suc, ◌%◌, ◌^◌, Bool, true, false, not, List, [], ◌∷◌, ◌++◌, Option, none, some, leb, ltb, ◌==◌,
  ◌&&◌, if◌then◌else◌, length,
}
use energy_chain.Shared.Text.{Text, codes, text_eq}

-- `Attestation`
pub record Attestation : Type 0 where
  pub data_hash : ℕ
  pub submitter : ℕ
  pub timestamp : ℕ
  pub block_number : ℕ
  pub data_type : Text
  pub memo : Text

-- `DataAttested`
pub record DataAttested : Type 0 where
  pub id : ℕ
  pub data_hash : ℕ
  pub submitter : ℕ
  pub data_type : Text
  pub timestamp : ℕ
  pub block_number : ℕ

-- The storage of the contract, and the events that it has emitted.
pub record State : Type 0 where
  pub total_attestations : ℕ
  pub attestations : ℕ → Attestation
  pub hash_to_id : ℕ → ℕ
  pub submitter_attestations : ℕ → List ℕ
  pub type_attestations : Text → List ℕ
  pub events : List DataAttested

-- The sender of a transaction, and the time and the number of its block.
pub record Context : Type 0 where
  pub sender : ℕ
  pub time : ℕ
  pub number : ℕ

-- How a call ends.
pub data Result (A : Type 0) : Type 0 where
  reverted : (reason : Text) → Result A
  returned : (a : A) → Result A

-- A mapping after one of its values is written.
abbrev pub put {ℓ} : {A : Type ℓ} → (ℕ → A) → ℕ → A → ℕ → A
put m k v j = if j == k then v else m j

abbrev pub put_text {ℓ} : {A : Type ℓ} → (Text → A) → Text → A → Text → A
put_text m k v j = if text_eq j k then v else m j

-- The constructor leaves every mapping empty.
abbrev pub no_attestation : Attestation
no_attestation = record {
  data_hash = 0;
  submitter = 0;
  timestamp = 0;
  block_number = 0;
  data_type = [];
  memo = [];
}

unfoldable pub initial : State
initial = record {
  total_attestations = 0;
  attestations = λ id. no_attestation;
  hash_to_id = λ h. 0;
  submitter_attestations = λ a. [];
  type_attestations = λ t. [];
  events = [];
}

-- `uint64(…)`
unfoldable pub uint64 : ℕ → ℕ
uint64 n = n % 2 ^ 64

-- `totalAttestations` is the largest uint256, and adding 1 panics.
unfoldable pub is_full : State → Bool
is_full s = suc s.total_attestations == 2 ^ 256

-- The attestation of a transaction.
unfoldable pub attestation_of : Context → ℕ → Text → Text → Attestation
attestation_of c h data_type memo = record {
  data_hash = h;
  submitter = c.sender;
  timestamp = uint64 c.time;
  block_number = uint64 c.number;
  data_type = data_type;
  memo = memo;
}

-- What `attest` and a round of `batchAttest` write under the next id.
unfoldable pub store : Context → ℕ → Text → Text → State → State
store c h data_type memo s =
    let id = suc s.total_attestations in
    record {
      total_attestations = id;
      attestations = put s.attestations id (attestation_of c h data_type memo);
      hash_to_id = put s.hash_to_id h id;
      submitter_attestations =
          put s.submitter_attestations c.sender (s.submitter_attestations c.sender ++ (id ∷ []));
      type_attestations =
          put_text s.type_attestations data_type (s.type_attestations data_type ++ (id ∷ []));
      events =
          s.events
          ++ (record {
            id = id;
            data_hash = h;
            submitter = c.sender;
            data_type = data_type;
            timestamp = uint64 c.time;
            block_number = uint64 c.number;
          }
              ∷ []);
    }

-- `attest`
unfoldable pub attest : Context → ℕ → Text → Text → State → Result (ℕ × State)
attest c h data_type memo s =
    if h == 0
    then reverted (codes "empty hash")
    else if not (s.hash_to_id h == 0)
    then reverted (codes "hash already attested")
    else if is_full s
    then reverted (codes "Panic(17)")
    else returned (suc s.total_attestations, store c h data_type memo s)

-- The loop of `batchAttest`.
unfoldable pub attest_each : Context → List ℕ → Text → Text → State → Result State
attest_each c [] data_type memo s = returned s
attest_each c (h ∷ hashes) data_type memo s =
    let rest = attest_each c hashes data_type memo (store c h data_type memo s) in
    if h == 0
    then reverted (codes "empty hash in batch")
    else if not (s.hash_to_id h == 0)
    then reverted (codes "duplicate hash in batch")
    else if is_full s
    then reverted (codes "Panic(17)")
    else rest

unfoldable pub with_id : ℕ → Result State → Result (ℕ × State)
with_id id (reverted reason) = reverted reason
with_id id (returned s) = returned (id, s)

-- `batchAttest`
unfoldable pub batch_attest : Context → List ℕ → Text → Text → State → Result (ℕ × State)
batch_attest c hashes data_type memo s =
    if length hashes == 0
    then reverted (codes "empty batch")
    else if not (leb (length hashes) 100)
    then reverted (codes "batch too large")
    else if is_full s
    then reverted (codes "Panic(17)")
    else with_id (suc s.total_attestations) (attest_each c hashes data_type memo s)

-- `getAttestation`
unfoldable pub get_attestation : ℕ → State → Result Attestation
get_attestation id s =
    if ltb 0 id && leb id s.total_attestations
    then returned (s.attestations id)
    else reverted (codes "invalid id")

-- `verifyByHash`, where `none` is an answer without an attestation
unfoldable pub verify_by_hash : ℕ → State → Option Attestation
verify_by_hash h s = let id = s.hash_to_id h in if id == 0 then none else some (s.attestations id)

-- `getAttestationsBySubmitter`
unfoldable pub get_attestations_by_submitter : ℕ → State → List ℕ
get_attestations_by_submitter a s = s.submitter_attestations a

-- `getAttestationsByType`
unfoldable pub get_attestations_by_type : Text → State → List ℕ
get_attestations_by_type t s = s.type_attestations t

-- The transactions that change the state.
pub data Transaction : Type 0 where
  attests : (c : Context) (h : ℕ) (data_type memo : Text) → Transaction
  batches : (c : Context) (hashes : List ℕ) (data_type memo : Text) → Transaction

unfoldable pub committed : Result (ℕ × State) → State → State
committed (reverted reason) s = s
committed (returned (id, after)) s = after

unfoldable pub execute : Transaction → State → State
execute (attests c h data_type memo) s = committed (attest c h data_type memo s) s
execute (batches c hashes data_type memo) s = committed (batch_attest c hashes data_type memo s) s

unfoldable pub execute_all : List Transaction → State → State
execute_all [] s = s
execute_all (t ∷ ts) s = execute_all ts (execute t s)
