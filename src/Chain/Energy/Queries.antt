-- ===== src/Chain/Energy/Queries.antt =====
-- The queries of chain/x/energy/keeper/keeper.go over an index.
use mathlib.Core.Option
use energy_chain.Shared.{List, [], ◌∷◌, ◌++◌, Option, none, some}
use energy_chain.Shared.Text.{Text}
use energy_chain.Chain.Kv.{get, iterate}
use energy_chain.Chain.Energy.Store.{
  EnergyData, BatchSubmission, Value, id_value, batch_value, KvStore,
}
use energy_chain.Chain.Energy.{get_energy_data, get_batch_submission_key}

unfoldable pub get_energy_by_category_prefix_key : Text → Text
get_energy_by_category_prefix_key category = (2 ∷ category) ++ (0 ∷ [])

unfoldable pub get_energy_by_submitter_prefix_key : Text → Text
get_energy_by_submitter_prefix_key submitter = (3 ∷ submitter) ++ (0 ∷ [])

-- `string(iter.Value())`, of an index, whose values are ids.
unfoldable pub id_of : Value → Text
id_of (id_value id) = id
id_of _ = []

unfoldable pub append_found : Option EnergyData → List EnergyData → List EnergyData
append_found none results = results
append_found (some d) results = d ∷ results

module _ (json : Text → Text) where
  -- The loop of a query over the entries of an index.
  unfoldable pub data_at : KvStore → List (Text × Value) → List EnergyData
  data_at s [] = []
  data_at s ((k, v) ∷ entries) = append_found (get_energy_data json (id_of v) s) (data_at s entries)

  -- `GetEnergyDataByCategory`
  unfoldable pub get_energy_data_by_category : Text → KvStore → List EnergyData
  get_energy_data_by_category category s =
      data_at s (iterate (get_energy_by_category_prefix_key category) s)

  -- `GetEnergyDataBySubmitter`
  unfoldable pub get_energy_data_by_submitter : Text → KvStore → List EnergyData
  get_energy_data_by_submitter submitter s =
      data_at s (iterate (get_energy_by_submitter_prefix_key submitter) s)

unfoldable pub batch_of : Option Value → Option BatchSubmission
batch_of (some (batch_value b)) = some b
batch_of _ = none

-- A batch as it is decoded.
unfoldable pub decoded_batch : (Text → Text) → BatchSubmission → BatchSubmission
decoded_batch json b = record {
  id = json b.id;
  submitter = json b.submitter;
  category = json b.category;
  data_count = b.data_count;
  merkle_root = json b.merkle_root;
  timestamp = b.timestamp;
}

-- `GetBatch`
unfoldable pub get_batch : (Text → Text) → Text → KvStore → Option BatchSubmission
get_batch json id s =
    Option.map (decoded_batch json) (batch_of (get (get_batch_submission_key id) s))
