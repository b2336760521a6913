-- ===== src/Chain/Energy.antt =====
-- The energy module of the chain: chain/x/energy/keeper/keeper.go and msg_server.go, with the keys of
-- chain/x/energy/types/keys.go. The store has the bytes of its keys, and a value is what encoding/json
-- was given. What it gives back of a text is a parameter, `json`, of everything that decodes, since it
-- changes texts that are not UTF-8; the parameters of the module come from a genesis that it decoded,
-- whose texts it gives back as they are. keccak256 is a parameter too.
pub mod Store
pub mod Merkle
pub mod Queries
pub mod Listed
pub mod ByCategory
pub mod Records
pub mod History
pub mod Genesis
use mathlib.Core.Option
use energy_chain.Shared.{
  ℕ, zero, suc, ◌+◌, ◌%◌, ◌^◌, Bool, true, false, not, List, [], ◌∷◌, ◌++◌, Option, none, some, leb,
  ◌==◌, ◌||◌, if◌then◌else◌, length, map,
}
use energy_chain.Shared.Text.{Text, codes, text_eq, starts_with}
use energy_chain.Shared.Number.{to_string}
use energy_chain.Chain.Energy.Merkle.{MerkleHash, verify_merkle_root}
use energy_chain.Chain.Kv.{get, set}
use energy_chain.Chain.Energy.Store.{
  EnergyData, BatchSubmission, Params, Value, record_value, id_value, batch_value, counter_value,
  params_value, KvStore,
}

-- `DefaultParams`
unfoldable pub default_params : Params
default_params = record { max_batch_size = 100; allowed_submitters = [] }

-- The keys: a byte for the kind, and the parts with a zero byte between them.
unfoldable pub get_energy_data_key : Text → Text
get_energy_data_key id = 1 ∷ id

unfoldable pub get_energy_by_category_key : Text → Text → Text
get_energy_by_category_key category id = 2 ∷ category ++ (0 ∷ id)

unfoldable pub get_energy_by_submitter_key : Text → Text → Text
get_energy_by_submitter_key submitter id = 3 ∷ submitter ++ (0 ∷ id)

unfoldable pub get_batch_submission_key : Text → Text
get_batch_submission_key id = 4 ∷ id

abbrev pub data_counter_key : Text
data_counter_key = 5 ∷ []

abbrev pub params_key : Text
params_key = codes "energy_params"

-- What the value of the counter stands for.
unfoldable pub counter_of : Option Value → ℕ
counter_of (some (counter_value n)) = n
counter_of _ = 0

unfoldable pub counter : KvStore → ℕ
counter s = counter_of (get data_counter_key s)

-- `GenerateID`: a counter of 64 bits, and the id made from it.
unfoldable pub next_seq : KvStore → ℕ
next_seq s = (counter s + 1) % 2 ^ 64

unfoldable pub energy_id : ℕ → Text
energy_id seq = codes "energy-" ++ to_string seq

unfoldable pub generate_id : KvStore → Text × KvStore
generate_id s = (energy_id (next_seq s), set data_counter_key (counter_value (next_seq s)) s)

-- `Keeper.SubmitEnergyData`
unfoldable pub put_energy_data : EnergyData → KvStore → KvStore
put_energy_data d s = set (get_energy_by_submitter_key d.submitter d.id) (id_value d.id) (
    set (get_energy_by_category_key d.category d.id) (id_value d.id)
      (set (get_energy_data_key d.id) (record_value d) s))

unfoldable pub record_of : Option Value → Option EnergyData
record_of (some (record_value d)) = some d
record_of _ = none

-- The record that was encoded under an id, with the texts that it was given.
unfoldable pub stored_record : Text → KvStore → Option EnergyData
stored_record id s = record_of (get (get_energy_data_key id) s)

-- A record as it is decoded: `json` is what encoding/json gives back of a text.
unfoldable pub decoded : (Text → Text) → EnergyData → EnergyData
decoded json d = record {
  id = json d.id;
  category = json d.category;
  submitter = json d.submitter;
  data_hash = json d.data_hash;
  metadata = json d.metadata;
  block_height = d.block_height;
  timestamp = d.timestamp;
}

-- `GetEnergyData`
unfoldable pub get_energy_data : (Text → Text) → Text → KvStore → Option EnergyData
get_energy_data json id s = Option.map (decoded json) (stored_record id s)

-- `Keeper.SubmitBatch`
unfoldable pub put_batch : BatchSubmission → KvStore → KvStore
put_batch b s = set (get_batch_submission_key b.id) (batch_value b) s

-- `GetParams`
unfoldable pub params_of : Option Value → Params
params_of (some (params_value p)) = p
params_of _ = default_params

unfoldable pub get_params : KvStore → Params
get_params s = params_of (get params_key s)

-- `SetParams`
unfoldable pub set_params : Params → KvStore → KvStore
set_params p s = set params_key (params_value p) s

unfoldable pub is_listed : Text → List Text → Bool
is_listed address [] = false
is_listed address (a ∷ allowed) = text_eq a address || is_listed address allowed

-- `IsAllowedSubmitter`: an empty list allows everyone.
unfoldable pub is_allowed : Text → List Text → Bool
is_allowed address [] = true
is_allowed address (a ∷ allowed) = is_listed address (a ∷ allowed)

unfoldable pub is_allowed_submitter : Text → KvStore → Bool
is_allowed_submitter address s = is_allowed address (get_params s).allowed_submitters

-- The block of a message.
pub record Block : Type 0 where
  pub height : ℕ
  pub time : ℕ

-- `BatchItem`
pub record BatchItem : Type 0 where
  pub data_hash : Text
  pub metadata : Text

-- `MsgSubmitEnergyData` and `MsgBatchSubmit`
pub data Message : Type 0 where
  submits : (submitter category data_hash metadata : Text) → Message
  submits_batch : (submitter category merkle_root : Text) (items : List BatchItem) → Message

unfoldable pub data_of : Block → Text → Text → Text → BatchItem → EnergyData
data_of b id submitter category item = record {
  id = id;
  category = category;
  submitter = submitter;
  data_hash = item.data_hash;
  metadata = item.metadata;
  block_height = b.height;
  timestamp = b.time;
}

-- An id is generated and a record is stored under it.
unfoldable pub store_item : Block → Text → Text → BatchItem → KvStore → KvStore
store_item b submitter category item s =
    put_energy_data (data_of b (energy_id (next_seq s)) submitter category item) (generate_id s).1

-- `msgServer.SubmitEnergyData`: the store afterwards, and `none` for an error, which changes nothing.
unfoldable pub submit_energy_data : Block → Text → Text → BatchItem → KvStore → Option KvStore
submit_energy_data b submitter category item s =
    if is_allowed_submitter submitter s then some (store_item b submitter category item s) else none

-- The loop of `BatchSubmit`.
unfoldable pub store_items : Block → Text → Text → List BatchItem → KvStore → KvStore
store_items b submitter category [] s = s
store_items b submitter category (item ∷ items) s =
    store_items b submitter category items (store_item b submitter category item s)

module _ (k : MerkleHash) where
  -- `msgServer.BatchSubmit`
  unfoldable pub batch_submit :
      Block → Text → Text → Text → List BatchItem → KvStore → Option KvStore
  batch_submit b submitter category merkle_root items s =
      if not (is_allowed_submitter submitter s)
      then none
      else if not (leb (length items % 2 ^ 32) (get_params s).max_batch_size)
      then none
      else if not (verify_merkle_root k (map (λ (i : BatchItem). i.data_hash) items) merkle_root)
      then none
      else some (
          put_batch
            (record {
              id = energy_id (next_seq s);
              submitter = submitter;
              category = category;
              data_count = length items % 2 ^ 32;
              merkle_root = merkle_root;
              timestamp = b.time;
            })
            (store_items b submitter category items (generate_id s).1))

  unfoldable pub handle : Block → Message → KvStore → Option KvStore
  handle b (submits submitter category data_hash metadata) s =
      submit_energy_data b submitter category
        (record { data_hash = data_hash; metadata = metadata }) s
  handle b (submits_batch submitter category merkle_root items) s =
      batch_submit b submitter category merkle_root items s

unfoldable pub or_before : Option KvStore → KvStore → KvStore
or_before none s = s
or_before (some t) s = t

-- Messages one after the other, each in its block: one that fails leaves the store as it was.
unfoldable pub run : MerkleHash → List (Block × Message) → KvStore → KvStore
run k [] s = s
run k ((b, message) ∷ messages) s = run k messages (or_before (handle k b message s) s)

-- How many ids a message takes at most: a batch takes one for itself.
unfoldable pub ids_of : Message → ℕ
ids_of (submits submitter category data_hash metadata) = 1
ids_of (submits_batch submitter category merkle_root items) = suc (length items)

unfoldable pub total_ids : List (Block × Message) → ℕ
total_ids [] = 0
total_ids ((b, message) ∷ messages) = ids_of message + total_ids messages
