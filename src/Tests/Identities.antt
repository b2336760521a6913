-- ===== src/Tests/Identities.antt =====
-- Messages to the identity module of the chain.
use energy_chain.Shared.{ℕ, ◌≡◌, ◌≢◌, refl, false, List, [], ◌∷◌, some, arith}
use energy_chain.Shared.Text.{Text, codes}
use mathlib.Core.Option.{none-ne-some}
use energy_chain.Chain.Kv.{less_text, get, set, delete, strip, under, iterate}
use energy_chain.Chain.Identity.{
  Identity, KvStore, status_active, status_revoked, get_identity_key,
  get_identity_by_role_prefix_key, get_identity_by_role_key, params_of, get_params, set_params,
  set_identity, identity_of, get_identity, has_value, is_registered, plays, has_role, Message,
  registers, updates, revokes, is_empty, is_admin, register_identity, updated, update_found,
  update_identity, revoked, revoke_found, revoke_identity, handle, run,
}
use energy_chain.Chain.Identity.Queries.{
  delete_identity, push, identities_at, get_identities_by_role, identities_in, get_all_identities,
  set_identities, init_genesis, export_genesis,
}
use energy_chain.Chain.Identity.Index.{IsIndexed}
use energy_chain.Chain.Identity.Roles.{run_inv}
use energy_chain.Chain.Identity.Standing.{IsRevoked, run-IsRevoked, standing, handle-standing}

identities_run : Unit {0}
unfolding less_text get set delete strip under iterate get_identity_key
    get_identity_by_role_prefix_key get_identity_by_role_key params_of get_params set_params
    set_identity identity_of get_identity delete_identity has_value is_registered plays has_role
    push identities_at get_identities_by_role identities_in get_all_identities set_identities
    init_genesis export_genesis is_empty is_admin register_identity updated update_found
    update_identity revoked revoke_found revoke_identity handle run
identities_run = tt

abbrev authority : Text
authority = codes "gov"

-- Two registrations, an update by the owner, a revocation, and a second registration that fails.
abbrev messages : List (ℕ × Message)
messages =
    (10, registers authority (codes "ann") (codes "Ann") (codes "vpp") [])
    ∷ (20, registers authority (codes "bob") (codes "Bob") (codes "vpp") [])
    ∷ (30, updates (codes "ann") (codes "ann") (codes "Anna") [])
    ∷ (40, revokes authority (codes "bob") [])
    ∷ (50, registers authority (codes "bob") (codes "Bob") (codes "vpp") [])
    ∷ []

state : KvStore
unfolding identities_run
state = run authority messages []

abbrev anna : Identity
anna = record {
  address = codes "ann";
  name = codes "Anna";
  role = codes "vpp";
  status = status_active;
  metadata = [];
  registered_at = 10;
  updated_at = 30;
}

abbrev bob : Identity
bob = record {
  address = codes "bob";
  name = codes "Bob";
  role = codes "vpp";
  status = status_revoked;
  metadata = [];
  registered_at = 20;
  updated_at = 40;
}

both_listed : get_identities_by_role (codes "vpp") state ≡ anna ∷ bob ∷ []
unfolding identities_run state
both_listed = refl

one_deleted : get_all_identities (delete_identity (codes "bob") state) ≡ anna ∷ []
unfolding identities_run state
one_deleted = refl

imported_again : init_genesis (export_genesis state) [] ≡ set_params (get_params state) state
unfolding identities_run state
imported_again = refl

empty-IsIndexed : IsIndexed []
unfolding identities_run
empty-IsIndexed = record {
  addressed = λ a i e. absurd (none-ne-some i e);
  entered = λ a i e. absurd (none-ne-some i e);
  listed = λ role a v p e. absurd (none-ne-some v e);
}

state-IsIndexed : IsIndexed state
unfolding state
state-IsIndexed =
    (run_inv authority (λ s. Unit {0}) (λ now m s t d v e h. tt) messages [] (omega arith)
      empty-IsIndexed tt).0

bob_found : get_identity (codes "bob") state ≡ some bob
unfolding identities_run state
bob_found = refl

run-IsRevoked_example :
    IsRevoked (codes "bob") (codes "vpp") 20 (run authority messages state)
    × ((role : Text) → has_role (codes "bob") role (run authority messages state) ≡ false)
run-IsRevoked_example =
    run-IsRevoked authority messages state (codes "bob") bob (omega arith) state-IsIndexed bob_found
      refl

abbrev own_update : Message
own_update = updates (codes "bob") (codes "bob") (codes "Robert") []

renamed_state : KvStore
unfolding identities_run state
renamed_state = set_identity (record bob { name = codes "Robert"; updated_at = 60 }) state

outsider : is_admin authority (codes "bob") state ≡ false
unfolding identities_run state
outsider = refl

own_update_accepted : handle authority 60 own_update state ≡ some renamed_state
unfolding identities_run state renamed_state
own_update_accepted = refl

handle-standing_example :
    (standing (get_identity (codes "ann") renamed_state)
      ≡ standing (get_identity (codes "ann") state))
    × (codes "bob" ≢ codes "ann"
        → get_identity (codes "ann") renamed_state ≡ get_identity (codes "ann") state)
handle-standing_example =
    handle-standing authority 60 own_update state renamed_state (codes "ann") tt state-IsIndexed
      outsider own_update_accepted
