-- ===== src/Chain/Identity/Queries.antt =====
-- Deleting, the queries and the genesis of chain/x/identity/keeper/keeper.go and of
-- chain/x/identity/module.go.
use energy_chain.Shared.{List, [], ◌∷◌, Option, none, some}
use energy_chain.Shared.Text.{Text}
use energy_chain.Chain.Kv.{delete, iterate}
use energy_chain.Chain.Identity.{
  Identity, Value, Params, KvStore, identity_prefix, get_identity_key,
  get_identity_by_role_prefix_key, get_identity_by_role_key, get_params, set_params, set_identity,
  identity_of, get_identity,
}

-- `DeleteIdentity`
unfoldable pub delete_identity : Text → KvStore → KvStore
delete_identity address s = elim (get_identity address s) [
  | none ↦ s
  | some identity ↦
      delete (get_identity_by_role_key identity.role address) (delete (get_identity_key address) s)
]

unfoldable pub push : Option Identity → List Identity → List Identity
push none is = is
push (some identity) is = identity ∷ is

unfoldable pub identities_at : KvStore → List (Text × Value) → List Identity
identities_at s [] = []
identities_at s ((address, v) ∷ entries) = push (get_identity address s) (identities_at s entries)

-- `GetIdentitiesByRole`
unfoldable pub get_identities_by_role : Text → KvStore → List Identity
get_identities_by_role role s = identities_at s (iterate (get_identity_by_role_prefix_key role) s)

unfoldable pub identities_in : List (Text × Value) → List Identity
identities_in [] = []
identities_in ((k, v) ∷ entries) = push (identity_of (some v)) (identities_in entries)

-- `GetAllIdentities`
unfoldable pub get_all_identities : KvStore → List Identity
get_all_identities s = identities_in (iterate identity_prefix s)

-- `GenesisState`
pub record GenesisState : Type 0 where
  pub identities : List Identity
  pub params : Params

unfoldable pub set_identities : List Identity → KvStore → KvStore
set_identities [] s = s
set_identities (identity ∷ is) s = set_identities is (set_identity identity s)

-- `InitGenesis`
unfoldable pub init_genesis : GenesisState → KvStore → KvStore
init_genesis gs s = set_identities gs.identities (set_params gs.params s)

-- `ExportGenesis`
unfoldable pub export_genesis : KvStore → GenesisState
export_genesis s = record { identities = get_all_identities s; params = get_params s }
