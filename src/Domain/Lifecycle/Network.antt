-- ===== src/Domain/Lifecycle/Network.antt =====
-- crates/nodescale-domain/src/lib.rs: `NetworkState`.
use hermes_nodescale.Prelude.{String, Bool, true, false}
use hermes_nodescale.Domain.Lifecycle.{Lifecycle}

pub data NetworkState : Type 0 where
  creating active suspended revoking revoked : NetworkState

abbrev pub NetworkState-discrete : Discrete NetworkState
NetworkState-discrete = hlevel

-- the pattern of the macro's call
abbrev allowed : NetworkState → NetworkState → Bool
allowed creating active = true
allowed creating revoked = true
allowed active suspended = true
allowed active revoking = true
allowed suspended active = true
allowed suspended revoking = true
allowed revoking revoked = true
allowed _ _ = false

abbrev as_str : NetworkState → String
as_str creating = "Creating"
as_str active = "Active"
as_str suspended = "Suspended"
as_str revoking = "Revoking"
as_str revoked = "Revoked"

instance abbrev pub network_lifecycle : Lifecycle NetworkState
network_lifecycle = record { eq = NetworkState-discrete; allowed = allowed; as_str = as_str }
