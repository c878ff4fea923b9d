-- ===== src/Domain/Invitation/Issuance.antt =====
-- crates/nodescale-domain/src/lib.rs: `Invitation::new`, `Invitation::new_n4` and
-- `validate_n4_issuance` side by side.
use hermes_nodescale.Prelude.{◌<◌, ◌≡◌, ◌≢◌, ◌↔◌, true, false, Option, ok, arith, is_some, is_ok}
use hermes_nodescale.OrderedSet.{contains}
use hermes_nodescale.Domain.Identifier.{JoinConstraints}
use hermes_nodescale.Domain.Roles.{admin, ranked_role}
use hermes_nodescale.Domain.Verifier.{PhcParser, is_n4_verifier}
use hermes_nodescale.Domain.Invitation.{
  Invitation, InvitationParts, InvitationAdminIntent, legacy, n4a, new_invitation,
  new_n4_invitation, validate_n4_issuance,
}

module _ (phc : PhcParser) (p : InvitationParts) (intent : Option InvitationAdminIntent)
    (constraints : JoinConstraints) where
  -- An N4 invitation is issued exactly if the admin role and the explicit admin intent are given
  -- together or not at all, the verifier has the N4 profile, it is single-use, and it expires
  -- after its creation.
  pub n4_issued_exactly : (is_ok (new_n4_invitation phc p intent constraints) ≡ true) ↔ (
      (contains p.roles admin ≡ is_some intent)
      × (is_n4_verifier phc p.secret_verifier ≡ true)
      × (p.max_uses ≡ 1)
      × (p.created_at < p.expires_at))
  unfolding new_n4_invitation
  n4_issued_exactly = (λ h. ground arith, λ h. ground arith)

  -- An N4 invitation that was issued passes the issuance check of the state store, is unused and
  -- single-use, and records elevated intent exactly if it has the admin role.
  pub n4_issued_is_valid :
      (i : Invitation)
      → new_n4_invitation phc p intent constraints ≡ ok i
      → (validate_n4_issuance phc i ≡ ok tt)
        × (i.max_uses ≡ 1)
        × (i.used_count ≡ 0)
        × (i.workflow ≡ n4a)
        × (i.elevated_admin_intent ≡ contains i.roles admin)
        × (i.created_at < i.expires_at)
  unfolding new_n4_invitation validate_n4_issuance
  n4_issued_is_valid i h = ground arith

-- A legacy invitation never carries the admin role and never passes for an N4 invitation.
pub legacy_never_admin :
    (phc : PhcParser) (p : InvitationParts) (i : Invitation)
    → new_invitation p ≡ ok i
    → (contains i.roles admin ≡ false)
      × (i.workflow ≡ legacy)
      × (i.elevated_admin_intent ≡ false)
      × (validate_n4_issuance phc i ≢ ok tt)
unfolding new_invitation validate_n4_issuance
legacy_never_admin phc p i h = ground arith
