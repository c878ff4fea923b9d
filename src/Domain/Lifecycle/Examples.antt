-- ===== src/Domain/Lifecycle/Examples.antt =====
-- The properties of the lifecycles at concrete runs.
use hermes_nodescale.Prelude.{◌≤◌, ◌≡◌, refl, true, List, [], ◌∷◌, ok}
use hermes_nodescale.Domain.Lifecycle.{transition}
use hermes_nodescale.Domain.Lifecycle.Runs.{attempts}
use hermes_nodescale.Domain.Lifecycle.Routes.{InOrder}
use hermes_nodescale.Domain.Lifecycle.Join.{JoinSessionState, join_lifecycle}
use hermes_nodescale.Domain.Lifecycle.Revocation.{RevocationState, revocation_lifecycle}
use hermes_nodescale.Domain.Lifecycle.Membership.{MembershipState, membership_lifecycle}
use hermes_nodescale.Domain.Lifecycle.Invitation.{InvitationState, invitation_lifecycle}
use hermes_nodescale.Domain.Lifecycle.Keryx.{KeryxBindingState, keryx_transition}
use hermes_nodescale.Domain.Lifecycle.Stages.{
  stages_left, steps_left, active-InOrder, revoked-InOrder,
}
use hermes_nodescale.Domain.Lifecycle.Revoked.{
  phase, membership_never_returns, is_spent, spent_invitation_stays_spent,
}

-- A run with a refused attempt: the agent cannot register twice.
abbrev joining : List JoinSessionState
joining =
    JoinSessionState.agent_registered ∷ JoinSessionState.keryx_binding_pending
    ∷ JoinSessionState.agent_registered ∷ JoinSessionState.keryx_binding_verified
    ∷ JoinSessionState.fleet_projection_pending ∷ JoinSessionState.active ∷ []

joining_arrives : attempts JoinSessionState.mesh_join_observed joining ≡ JoinSessionState.active
unfolding attempts transition
joining_arrives = refl

active-InOrder_example : InOrder (stages_left JoinSessionState.mesh_join_observed) joining
active-InOrder_example = active-InOrder JoinSessionState.mesh_join_observed joining joining_arrives

-- A run that tries to clean up the provider too early.
abbrev revoking : List RevocationState
revoking =
    RevocationState.provider_cleanup_pending ∷ RevocationState.credential_revocation_pending
    ∷ RevocationState.keryx_binding_disable_pending ∷ RevocationState.provider_cleanup_pending
    ∷ RevocationState.revoked ∷ []

revoking_arrives :
    attempts RevocationState.application_trust_removal_pending revoking ≡ RevocationState.revoked
unfolding attempts transition
revoking_arrives = refl

revoked-InOrder_example :
    InOrder (steps_left RevocationState.application_trust_removal_pending) revoking
revoked-InOrder_example =
    revoked-InOrder RevocationState.application_trust_removal_pending revoking revoking_arrives

abbrev reactivating : List MembershipState
reactivating = MembershipState.suspended ∷ MembershipState.active ∷ []

membership_never_returns_example :
    phase MembershipState.active ≤ phase (attempts MembershipState.active reactivating)
membership_never_returns_example = membership_never_returns MembershipState.active reactivating

abbrev reissuing : List InvitationState
reissuing = InvitationState.issued ∷ InvitationState.redeeming ∷ []

spent_invitation_stays_spent_example : is_spent (attempts InvitationState.consumed reissuing) ≡ true
spent_invitation_stays_spent_example =
    spent_invitation_stays_spent InvitationState.consumed reissuing refl

activation_accepted :
    keryx_transition KeryxBindingState.pending KeryxBindingState.active
    ≡ ok KeryxBindingState.active
unfolding keryx_transition
activation_accepted = refl
