-- ===== src/Domain/Lifecycle/Join.antt =====
-- crates/nodescale-domain/src/lib.rs: `JoinSessionState`.
use hermes_nodescale.Prelude.{String, Bool, true, false, ◌||◌, ◌&&◌, not}
use hermes_nodescale.Domain.Lifecycle.{Lifecycle}

pub data JoinSessionState : Type 0 where
  created invitation_validated provider_credential_issuing : JoinSessionState
  provider_credential_issued provider_credential_ambiguous : JoinSessionState
  provider_credential_revocation_pending mesh_join_observed : JoinSessionState
  agent_registered keryx_binding_pending keryx_binding_verified : JoinSessionState
  fleet_projection_pending active expired failed revoked : JoinSessionState

abbrev pub JoinSessionState-discrete : Discrete JoinSessionState
JoinSessionState-discrete = hlevel

abbrev ends_early : JoinSessionState → Bool
ends_early expired = true
ends_early failed = true
ends_early revoked = true
ends_early _ = false

abbrev is_final : JoinSessionState → Bool
is_final active = true
is_final s = ends_early s

abbrev next_stage : JoinSessionState → JoinSessionState → Bool
next_stage created invitation_validated = true
next_stage invitation_validated provider_credential_issuing = true
next_stage provider_credential_issuing provider_credential_issued = true
next_stage provider_credential_issuing provider_credential_ambiguous = true
next_stage provider_credential_issuing provider_credential_revocation_pending = true
next_stage provider_credential_issued provider_credential_revocation_pending = true
next_stage provider_credential_ambiguous provider_credential_revocation_pending = true
next_stage provider_credential_revocation_pending revoked = true
next_stage provider_credential_revocation_pending expired = true
next_stage provider_credential_issued mesh_join_observed = true
next_stage mesh_join_observed agent_registered = true
next_stage agent_registered keryx_binding_pending = true
next_stage keryx_binding_pending keryx_binding_verified = true
next_stage keryx_binding_verified fleet_projection_pending = true
next_stage fleet_projection_pending active = true
next_stage _ _ = false

abbrev as_str : JoinSessionState → String
as_str created = "Created"
as_str invitation_validated = "InvitationValidated"
as_str provider_credential_issuing = "ProviderCredentialIssuing"
as_str provider_credential_issued = "ProviderCredentialIssued"
as_str provider_credential_ambiguous = "ProviderCredentialAmbiguous"
as_str provider_credential_revocation_pending = "ProviderCredentialRevocationPending"
as_str mesh_join_observed = "MeshJoinObserved"
as_str agent_registered = "AgentRegistered"
as_str keryx_binding_pending = "KeryxBindingPending"
as_str keryx_binding_verified = "KeryxBindingVerified"
as_str fleet_projection_pending = "FleetProjectionPending"
as_str active = "Active"
as_str expired = "Expired"
as_str failed = "Failed"
as_str revoked = "Revoked"

instance abbrev pub join_lifecycle : Lifecycle JoinSessionState
join_lifecycle = record {
  eq = JoinSessionState-discrete;
  allowed = λ a b. (ends_early b && not (is_final a)) || next_stage a b;
  as_str = as_str;
}
