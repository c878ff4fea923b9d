-- ===== src/Domain/Lifecycle/Trust.antt =====
-- crates/nodescale-domain/src/lib.rs: `DeviceTrustState`.
use hermes_nodescale.Prelude.{String, Bool, true, false}
use hermes_nodescale.Domain.Lifecycle.{Lifecycle}

pub data DeviceTrustState : Type 0 where
  untrusted trusted revoked : DeviceTrustState

abbrev pub DeviceTrustState-discrete : Discrete DeviceTrustState
DeviceTrustState-discrete = hlevel

-- the pattern of the macro's call
abbrev allowed : DeviceTrustState → DeviceTrustState → Bool
allowed untrusted trusted = true
allowed untrusted revoked = true
allowed trusted revoked = true
allowed _ _ = false

abbrev as_str : DeviceTrustState → String
as_str untrusted = "Untrusted"
as_str trusted = "Trusted"
as_str revoked = "Revoked"

instance abbrev pub trust_lifecycle : Lifecycle DeviceTrustState
trust_lifecycle = record { eq = DeviceTrustState-discrete; allowed = allowed; as_str = as_str }
