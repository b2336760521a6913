-- ===== src/Chain/Energy/Store.antt =====
-- What the store of chain/x/energy keeps: chain/x/energy/types/types.go and genesis.go.
use energy_chain.Shared.{ℕ, List}
use energy_chain.Shared.Text.{Text}

-- `EnergyData`
pub record EnergyData : Type 0 where
  pub id : Text
  pub category : Text
  pub submitter : Text
  pub data_hash : Text
  pub metadata : Text
  pub block_height : ℕ
  pub timestamp : ℕ

-- `BatchSubmission`
pub record BatchSubmission : Type 0 where
  pub id : Text
  pub submitter : Text
  pub category : Text
  pub data_count : ℕ
  pub merkle_root : Text
  pub timestamp : ℕ

-- `Params`
pub record Params : Type 0 where
  pub max_batch_size : ℕ
  pub allowed_submitters : List Text

pub data Value : Type 0 where
  record_value : (d : EnergyData) → Value
  id_value : (id : Text) → Value
  batch_value : (b : BatchSubmission) → Value
  counter_value : (n : ℕ) → Value
  params_value : (p : Params) → Value

abbrev pub KvStore : Type 0
KvStore = List (Text × Value)
