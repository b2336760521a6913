-- ===== src/Chain/Energy/Genesis.antt =====
-- The genesis of chain/x/energy/keeper/keeper.go: what is exported from a store and what is stored
-- from it, and the ids that are given afterwards.
use mathlib.Core.Option
use energy_chain.Shared.{
  ◌+◌, ◌%◌, ◌^◌, ◌≡◌, refl, ap, ◌∙◌, subst, List, [], ◌∷◌, ◌++◌, some, if◌then◌else◌, arith,
}
use energy_chain.Shared.Text.{Text, codes, starts_with}
use energy_chain.Chain.Kv.{other_kind, get-set_other}
use energy_chain.Chain.Energy.Store.{
  EnergyData, BatchSubmission, Params, Value, record_value, batch_value, KvStore,
}
use energy_chain.Chain.Energy.{
  get_energy_data_key, get_energy_by_category_key, get_energy_by_submitter_key,
  get_batch_submission_key, data_counter_key, params_key, counter_of, counter, next_seq,
  put_energy_data, put_batch, get_params, set_params, energy_id, stored_record, decoded,
  get_energy_data, Block, BatchItem, data_of, store_item, is_allowed_submitter, submit_energy_data,
}
use energy_chain.Shared.Number.{to_string}
use energy_chain.Chain.Energy.Queries.{decoded_batch}
use energy_chain.Chain.Energy.History.{data_of_item, store_of_accepted}

-- `GenesisState`
pub record GenesisState : Type 0 where
  pub data_records : List EnergyData
  pub batches : List BatchSubmission
  pub params : Params

unfoldable pub put_records : List EnergyData → KvStore → KvStore
put_records [] s = s
put_records (d ∷ ds) s = put_records ds (put_energy_data d s)

unfoldable pub put_batches : List BatchSubmission → KvStore → KvStore
put_batches [] s = s
put_batches (b ∷ bs) s = put_batches bs (put_batch b s)

-- `InitGenesis`
unfoldable pub init_genesis : GenesisState → KvStore → KvStore
init_genesis gs s = put_batches gs.batches (put_records gs.data_records (set_params gs.params s))

module _ (json : Text → Text) where
  unfoldable pub keep_record : Value → List EnergyData → List EnergyData
  keep_record (record_value d) ds = decoded json d ∷ ds
  keep_record _ ds = ds

  -- `GetAllData`: the store is iterated in the order of its keys.
  unfoldable pub get_all_data : KvStore → List EnergyData
  get_all_data [] = []
  get_all_data ((k, v) ∷ s) =
      let rest = get_all_data s in if starts_with (1 ∷ []) k then keep_record v rest else rest

  unfoldable pub keep_batch : Value → List BatchSubmission → List BatchSubmission
  keep_batch (batch_value b) bs = decoded_batch json b ∷ bs
  keep_batch _ bs = bs

  -- `GetAllBatches`
  unfoldable pub get_all_batches : KvStore → List BatchSubmission
  get_all_batches [] = []
  get_all_batches ((k, v) ∷ s) =
      let rest = get_all_batches s in if starts_with (4 ∷ []) k then keep_batch v rest else rest

  -- `ExportGenesis`
  unfoldable pub export_genesis : KvStore → GenesisState
  export_genesis s = record {
    data_records = get_all_data s;
    batches = get_all_batches s;
    params = get_params s;
  }

counter-of_record : (d : EnergyData) (s : KvStore) → counter (put_energy_data d s) ≡ counter s
unfolding counter put_energy_data get_energy_data_key get_energy_by_category_key
    get_energy_by_submitter_key
counter-of_record d s = ap counter_of (
    get-set_other (3 ∷ d.submitter ++ (0 ∷ d.id)) data_counter_key _ _
      (other_kind 3 5 _ [] (omega arith))
    ∙ (get-set_other (2 ∷ d.category ++ (0 ∷ d.id)) data_counter_key _ _
          (other_kind 2 5 _ [] (omega arith))
        ∙ get-set_other (1 ∷ d.id) data_counter_key _ s (other_kind 1 5 _ [] (omega arith))))

counter-of_records : (ds : List EnergyData) (s : KvStore) → counter (put_records ds s) ≡ counter s
unfolding put_records
counter-of_records [] s = refl
counter-of_records (d ∷ ds) s = counter-of_records ds (put_energy_data d s) ∙ counter-of_record d s

counter-of_batches :
    (bs : List BatchSubmission) (s : KvStore) → counter (put_batches bs s) ≡ counter s
unfolding put_batches put_batch get_batch_submission_key counter
counter-of_batches [] s = refl
counter-of_batches (b ∷ bs) s =
    counter-of_batches bs (put_batch b s)
    ∙ ap counter_of
        (get-set_other (4 ∷ b.id) data_counter_key _ s (other_kind 4 5 _ [] (omega arith)))

counter-of_params : (p : Params) (s : KvStore) → counter (set_params p s) ≡ counter s
unfolding set_params counter
counter-of_params p s =
    ap counter_of
      (get-set_other params_key data_counter_key _ s (other_kind b'e' 5 _ [] (omega arith)))

-- Whatever is imported, the counter stays as it was: in a store without one, the first id that is
-- given is that of the number 1, also where a record that is imported has it.
init_genesis-next_seq :
    (gs : GenesisState) (s : KvStore) → counter s ≡ 0 → next_seq (init_genesis gs s) ≡ 1
unfolding init_genesis next_seq
init_genesis-next_seq gs s e =
    ap (λ n. (n + 1) % 2 ^ 64)
      (counter-of_batches gs.batches _
        ∙ (counter-of_records gs.data_records _ ∙ (counter-of_params gs.params s ∙ e)))

-- A submission that is accepted on a store into which a genesis was imported and which had no
-- counter: it gets the id "energy-1", and its record is found under this id, with the texts that
-- encoding/json gives back, also where the genesis has another record with it.
pub init_genesis-overwrites :
    (json : Text → Text) (gs : GenesisState) (s t : KvStore) (b : Block) (submitter category : Text)
    (item : BatchItem)
    → counter s ≡ 0
    → submit_energy_data b submitter category item (init_genesis gs s) ≡ some t
    → get_energy_data json (codes "energy-1") t
      ≡ some (decoded json (data_of b (codes "energy-1") submitter category item))
unfolding submit_energy_data energy_id to_string get_energy_data
init_genesis-overwrites json gs s t b submitter category item e accepted =
    let imported = init_genesis gs s in
    let same =
      store_of_accepted (is_allowed_submitter submitter imported)
        (store_item b submitter category item imported) t accepted in
    ap (Option.map (decoded json)) (
      subst
        (λ z.
          stored_record (energy_id 1) z ≡ some (data_of b (energy_id 1) submitter category item))
        same
        (subst
          (λ n.
            stored_record (energy_id n) (store_item b submitter category item imported)
            ≡ some (data_of b (energy_id n) submitter category item))
          (init_genesis-next_seq gs s e) (data_of_item b submitter category item imported)))
