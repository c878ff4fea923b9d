-- ===== src/Domain/Lifecycle/Revocation.antt =====
-- crates/nodescale-domain/src/lib.rs: `RevocationState`.
use hermes_nodescale.Prelude.{String, Bool, true, false}
use hermes_nodescale.Domain.Lifecycle.{Lifecycle}

pub data RevocationState : Type 0 where
  requested application_trust_removal_pending credential_revocation_pending
        keryx_binding_disable_pending provider_cleanup_pending revoked :
      RevocationState

abbrev pub RevocationState-discrete : Discrete RevocationState
RevocationState-discrete = hlevel

-- the pattern of the macro's call
abbrev allowed : RevocationState → RevocationState → Bool
allowed requested application_trust_removal_pending = true
allowed application_trust_removal_pending credential_revocation_pending = true
allowed credential_revocation_pending keryx_binding_disable_pending = true
allowed keryx_binding_disable_pending provider_cleanup_pending = true
allowed provider_cleanup_pending revoked = true
allowed _ _ = false

abbrev as_str : RevocationState → String
as_str requested = "Requested"
as_str application_trust_removal_pending = "ApplicationTrustRemovalPending"
as_str credential_revocation_pending = "CredentialRevocationPending"
as_str keryx_binding_disable_pending = "KeryxBindingDisablePending"
as_str provider_cleanup_pending = "ProviderCleanupPending"
as_str revoked = "Revoked"

instance abbrev pub revocation_lifecycle : Lifecycle RevocationState
revocation_lifecycle = record { eq = RevocationState-discrete; allowed = allowed; as_str = as_str }
