-- ===== src/Chain.antt =====
-- The modules of the chain: chain/x/energy and chain/x/identity.
pub mod Keys
pub mod Kv
pub mod Energy
pub mod Identity
