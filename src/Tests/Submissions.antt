-- ===== src/Tests/Submissions.antt =====
-- Messages to the energy module of the chain, with a hash that only appends.
use energy_chain.Shared.{
  ℕ, if◌then◌else◌, suc, ◌+◌, ◌^◌, ◌<◌, ◌≡◌, ◌↔◌, refl, true, List, [], ◌∷◌, ◌++◌, some, length,
  leb, arith,
}
use energy_chain.Shared.Text.{Text, codes, lower}
use energy_chain.Shared.Number.{to_string}
use mathlib.Core.List.{Memᴰ}
use mathlib.Core.Option.{none-ne-some}
use energy_chain.Chain.Energy.Listed.{IsListed}
use energy_chain.Chain.Energy.Queries.{
  get_energy_by_category_prefix_key, get_energy_by_submitter_prefix_key, id_of, append_found,
  data_at, get_energy_data_by_category, get_energy_data_by_submitter, batch_of, decoded_batch,
  get_batch,
}
use energy_chain.Chain.Kv.{strip, under, iterate, less_text, get, set}
use energy_chain.Chain.Energy.Store.{EnergyData, KvStore}
use energy_chain.Chain.Energy.Merkle.{
  MerkleHash, trim_0x, hash_pair, next_level, compute_merkle_root, matches_root, verify_merkle_root,
  verify_merkle_root-twice,
}
use energy_chain.Chain.Energy.{
  default_params, get_energy_data_key, get_energy_by_category_key, get_energy_by_submitter_key,
  get_batch_submission_key, counter_of, counter, next_seq, energy_id, generate_id, put_energy_data,
  record_of, stored_record, decoded, get_energy_data, put_batch, params_of, get_params, is_listed,
  is_allowed, is_allowed_submitter, Block, BatchItem, Message, submits, submits_batch, data_of,
  store_item, submit_energy_data, store_items, batch_submit, handle, or_before, run, ids_of,
  total_ids,
}
use energy_chain.Chain.Energy.Records.{IsFresh}
use energy_chain.Chain.Energy.History.{
  run-KeepsRecords, get_energy_data_by_category_iff, submit_energy_data-get_energy_data,
}
use energy_chain.Chain.Energy.{set_params}
use energy_chain.Chain.Energy.ByCategory.{IsOfCategory}
use energy_chain.Chain.Energy.Genesis.{
  GenesisState, put_records, put_batches, init_genesis, keep_record, get_all_data, keep_batch,
  get_all_batches, export_genesis, init_genesis-overwrites,
}

module_runs : Unit {0}
unfolding less_text get set trim_0x hash_pair next_level compute_merkle_root matches_root
    verify_merkle_root default_params get_energy_data_key get_energy_by_category_key
    get_energy_by_submitter_key get_batch_submission_key counter_of counter next_seq energy_id
    generate_id put_energy_data record_of stored_record decoded get_energy_data put_batch params_of
    get_params is_listed is_allowed is_allowed_submitter data_of store_item submit_energy_data
    store_items batch_submit handle or_before run ids_of total_ids lower to_string strip under
    iterate get_energy_by_category_prefix_key get_energy_by_submitter_prefix_key id_of append_found
    data_at get_energy_data_by_category get_energy_data_by_submitter batch_of decoded_batch
    get_batch put_records put_batches init_genesis keep_record get_all_data keep_batch
    get_all_batches export_genesis set_params
module_runs = tt

abbrev plain_hash : MerkleHash
plain_hash = record {
  Hash = Text;
  keccak = λ t. t;
  keccak_pair = λ s t. s ++ t;
  hex = λ t. t;
  at_most = λ s t. leb (length s) (length t);
}

abbrev block : Block
block = record { height = 7; time = 1000 }

abbrev item : BatchItem
item = record { data_hash = codes "a"; metadata = [] }

-- What encoding/json gives back, where every byte outside ASCII stands alone.
abbrev ascii_byte : ℕ → Text
ascii_byte c = if leb c 127 then c ∷ [] else 239 ∷ 191 ∷ 189 ∷ []

abbrev ascii : Text → Text
ascii [] = []
ascii (c ∷ s) = ascii_byte c ++ ascii s

-- A submission, and a batch of two whose root fits.
abbrev messages : List (Block × Message)
messages =
    (block, submits (codes "alice") (codes "meter") (codes "m") [])
    ∷ (block, submits_batch (codes "bob") (codes "meter") (codes "0xAA") (item ∷ (item ∷ [])))
    ∷ []

-- The batch takes the second id.
four_given : counter (run plain_hash messages []) ≡ 4
unfolding module_runs
four_given = refl

empty-IsFresh : IsFresh []
unfolding get
empty-IsFresh n above small = refl

empty_room : counter [] + total_ids messages < 2 ^ 64
unfolding module_runs
empty_room = omega arith

abbrev before : KvStore
before = run plain_hash messages []

after : KvStore
unfolding module_runs
after = store_item block (codes "carol") (codes "ev") item before

before-IsFresh : IsFresh before
before-IsFresh = (run-KeepsRecords plain_hash messages [] empty-IsFresh empty_room).1

more_room : counter before + suc (total_ids messages) < 2 ^ 64
unfolding module_runs
more_room = omega arith

after_accepted : submit_energy_data block (codes "carol") (codes "ev") item before ≡ some after
unfolding module_runs after
after_accepted = refl

submit_energy_data-get_energy_data_example :
    get_energy_data ascii (energy_id (next_seq before)) (run plain_hash messages after)
    ≡ some (
        decoded ascii
          (data_of block (energy_id (next_seq before)) (codes "carol") (codes "ev") item))
submit_energy_data-get_energy_data_example =
    submit_energy_data-get_energy_data ascii plain_hash block (codes "carol") (codes "ev") item
      before after messages before-IsFresh more_room after_accepted

two_accepted : verify_merkle_root plain_hash (codes "a" ∷ (codes "b" ∷ [])) (codes "0xAB") ≡ true
unfolding module_runs
two_accepted = refl

verify_merkle_root-twice_example :
    verify_merkle_root plain_hash (codes "a" ∷ (codes "b" ∷ (codes "c" ∷ []))) (codes "abcc")
    ≡ verify_merkle_root plain_hash
        (codes "a" ∷ (codes "b" ∷ (codes "c" ∷ (codes "c" ∷ []))))
        (codes "abcc")
verify_merkle_root-twice_example =
    verify_merkle_root-twice plain_hash (codes "a") (codes "b") [] (codes "c") (codes "abcc") refl

abbrev old_record : EnergyData
old_record = data_of block (codes "energy-1") (codes "alice") (codes "meter") item

abbrev genesis : GenesisState
genesis = record {
  data_records = old_record ∷ [];
  batches = [];
  params = record { max_batch_size = 100; allowed_submitters = [] };
}

imported : KvStore
unfolding module_runs
imported = init_genesis genesis []

-- What is exported again is what was imported.
exported_again : export_genesis ascii imported ≡ genesis
unfolding module_runs imported
exported_again = refl

overwritten : KvStore
unfolding module_runs imported
overwritten = store_item block (codes "carol") (codes "ev") item imported

overwritten_accepted :
    submit_energy_data block (codes "carol") (codes "ev") item (init_genesis genesis [])
    ≡ some overwritten
unfolding module_runs imported overwritten
overwritten_accepted = refl

no_counter : counter [] ≡ 0
unfolding module_runs
no_counter = refl

init_genesis-overwrites_example :
    get_energy_data ascii (codes "energy-1") overwritten
    ≡ some (decoded ascii (data_of block (codes "energy-1") (codes "carol") (codes "ev") item))
init_genesis-overwrites_example =
    init_genesis-overwrites ascii genesis [] overwritten block (codes "carol") (codes "ev") item
      no_counter overwritten_accepted

empty-IsListed : IsListed []
unfolding module_runs
empty-IsListed = record {
  entered = λ id d e. absurd (none-ne-some d e);
  listed = λ k v h. elim h [ ];
}

meter_record : EnergyData
unfolding module_runs
meter_record =
    data_of block (codes "energy-1") (codes "alice") (codes "meter")
      (record { data_hash = codes "m"; metadata = [] })

get_energy_data_by_category_iff_example :
    Memᴰ meter_record
      (get_energy_data_by_category ascii (codes "meter") (run plain_hash messages []))
    ↔ IsOfCategory ascii (codes "meter") (run plain_hash messages []) meter_record
get_energy_data_by_category_iff_example =
    get_energy_data_by_category_iff plain_hash ascii messages [] (codes "meter") meter_record
      empty-IsFresh empty-IsListed empty_room

-- A record of the category "meter", a zero byte and "x" is listed for "meter".
abbrev mixed : KvStore
mixed = store_item block (codes "carol") (codes "meter" ++ (0 ∷ codes "x")) item []

mixed_listed : length (get_energy_data_by_category ascii (codes "meter") mixed) ≡ 1
unfolding module_runs
mixed_listed = refl

three_by_category : length (get_energy_data_by_category ascii (codes "meter") before) ≡ 3
unfolding module_runs
three_by_category = refl

two_by_submitter : length (get_energy_data_by_submitter ascii (codes "bob") before) ≡ 2
unfolding module_runs
two_by_submitter = refl

batch_stored :
    get_batch ascii (codes "energy-2") before
    ≡ some (record {
      id = codes "energy-2";
      submitter = codes "bob";
      category = codes "meter";
      data_count = 2;
      merkle_root = codes "0xAA";
      timestamp = 1000;
    })
unfolding module_runs
batch_stored = refl
