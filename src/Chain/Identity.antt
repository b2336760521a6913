-- ===== src/Chain/Identity.antt =====
-- The identity module of the chain: chain/x/identity/keeper/keeper.go and msg_server.go, with the keys of
-- chain/x/identity/types/keys.go and the genesis of chain/x/identity/module.go. Texts are UTF-8, which
-- encoding/json gives back as they were; other texts, which it changes, are outside the model. Times
-- are seconds.
pub mod Queries
pub mod Index
pub mod Steps
pub mod Roles
pub mod Standing
use energy_chain.Shared.{
  ℕ, Bool, true, false, not, List, [], ◌∷◌, ◌++◌, Option, none, some, ◌&&◌, ◌||◌, if◌then◌else◌,
}
use energy_chain.Shared.Text.{Text, codes, text_eq}
use energy_chain.Chain.Kv.{get, set, delete, iterate}

abbrev pub status_active : Text
status_active = codes "active"

abbrev pub status_revoked : Text
status_revoked = codes "revoked"

-- `Identity`
pub record Identity : Type 0 where
  pub address : Text
  pub name : Text
  pub role : Text
  pub status : Text
  pub metadata : Text
  pub registered_at : ℕ
  pub updated_at : ℕ

-- `Params`
pub record Params : Type 0 where
  pub admin_address : Text

-- The mark is the single byte that an entry of the index has.
pub data Value : Type 0 where
  identity_value : (identity : Identity) → Value
  mark : Value
  params_value : (params : Params) → Value

abbrev pub KvStore : Type 0
KvStore = List (Text × Value)

-- The keys: a byte for the kind; the parts of an entry of the index have a zero byte between them.
abbrev pub identity_prefix : Text
identity_prefix = 1 ∷ []

unfoldable pub get_identity_key : Text → Text
get_identity_key address = identity_prefix ++ address

unfoldable pub get_identity_by_role_prefix_key : Text → Text
get_identity_by_role_prefix_key role = (2 ∷ role) ++ (0 ∷ [])

unfoldable pub get_identity_by_role_key : Text → Text → Text
unfolding get_identity_by_role_prefix_key
get_identity_by_role_key role address = get_identity_by_role_prefix_key role ++ address

abbrev pub params_key : Text
params_key = codes "identity_params"

unfoldable pub params_of : Option Value → Params
params_of (some (params_value params)) = params
params_of _ = record { admin_address = [] }

-- `GetParams`
unfoldable pub get_params : KvStore → Params
get_params s = params_of (get params_key s)

-- `SetParams`
unfoldable pub set_params : Params → KvStore → KvStore
set_params params s = set params_key (params_value params) s

-- `SetIdentity`
unfoldable pub set_identity : Identity → KvStore → KvStore
set_identity identity s =
    set (get_identity_by_role_key identity.role identity.address) mark
      (set (get_identity_key identity.address) (identity_value identity) s)

unfoldable pub identity_of : Option Value → Option Identity
identity_of (some (identity_value identity)) = some identity
identity_of _ = none

-- `GetIdentity`
unfoldable pub get_identity : Text → KvStore → Option Identity
get_identity address s = identity_of (get (get_identity_key address) s)

unfoldable pub has_value : Option Value → Bool
has_value none = false
has_value (some v) = true

-- `IsRegistered`
unfoldable pub is_registered : Text → KvStore → Bool
is_registered address s = has_value (get (get_identity_key address) s)

unfoldable pub plays : Text → Option Identity → Bool
plays role none = false
plays role (some identity) = text_eq identity.role role && text_eq identity.status status_active

-- `HasRole`
unfoldable pub has_role : Text → Text → KvStore → Bool
has_role address role s = plays role (get_identity address s)

-- `MsgRegisterIdentity`, `MsgUpdateIdentity` and `MsgRevokeIdentity`
pub data Message : Type 0 where
  registers : (creator address name role metadata : Text) → Message
  updates : (creator address name metadata : Text) → Message
  revokes : (creator address reason : Text) → Message

unfoldable pub is_empty : Text → Bool
is_empty [] = true
is_empty (c ∷ s) = false

unfoldable pub updated : ℕ → Text → Text → Identity → Identity
updated now name metadata identity = record identity {
  name = if is_empty name then identity.name else name;
  metadata = if is_empty metadata then identity.metadata else metadata;
  updated_at = now;
}

unfoldable pub revoked : ℕ → Identity → Identity
revoked now identity = record identity { status = status_revoked; updated_at = now }

unfoldable pub revoke_found : ℕ → KvStore → Option Identity → Option KvStore
revoke_found now s none = none
revoke_found now s (some identity) =
    if text_eq identity.status status_revoked
    then none
    else some (set_identity (revoked now identity) s)

-- The keeper's `authority` may do what the administrator of the parameters may.
module _ (authority : Text) where
  -- `isAdmin`
  unfoldable pub is_admin : Text → KvStore → Bool
  is_admin address s =
      let admin = (get_params s).admin_address in
      text_eq address authority || (not (is_empty admin) && text_eq admin address)

  unfoldable pub register_identity :
      ℕ → (creator address name role metadata : Text) → KvStore → Option KvStore
  register_identity now creator address name role metadata s =
      if not (is_admin creator s)
      then none
      else if is_registered address s
      then none
      else some (
          set_identity
            (record {
              address = address;
              name = name;
              role = role;
              status = status_active;
              metadata = metadata;
              registered_at = now;
              updated_at = now;
            })
            s)

  unfoldable pub update_found :
      ℕ → (creator address name metadata : Text) → KvStore → Option Identity → Option KvStore
  update_found now creator address name metadata s none = none
  update_found now creator address name metadata s (some identity) =
      if not (is_admin creator s) && not (text_eq creator address)
      then none
      else some (set_identity (updated now name metadata identity) s)

  unfoldable pub update_identity :
      ℕ → (creator address name metadata : Text) → KvStore → Option KvStore
  update_identity now creator address name metadata s =
      update_found now creator address name metadata s (get_identity address s)

  unfoldable pub revoke_identity : ℕ → (creator address : Text) → KvStore → Option KvStore
  revoke_identity now creator address s =
      if not (is_admin creator s) then none else revoke_found now s (get_identity address s)

  -- A message in a block of some time: the store afterwards, and `none` for an error, which changes
  -- nothing.
  unfoldable pub handle : ℕ → Message → KvStore → Option KvStore
  handle now (registers creator address name role metadata) s =
      register_identity now creator address name role metadata s
  handle now (updates creator address name metadata) s =
      update_identity now creator address name metadata s
  handle now (revokes creator address reason) s = revoke_identity now creator address s

  unfoldable pub run : List (ℕ × Message) → KvStore → KvStore
  run [] s = s
  run ((now, message) ∷ messages) s =
      run messages (elim (handle now message s) [ none ↦ s | some t ↦ t ])
