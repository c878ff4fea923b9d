-- ===== src/Domain/Invitation.antt =====
-- crates/nodescale-domain/src/lib.rs: `Invitation`, its constructors and the issuance check.
mod Issuance
mod Examples
use hermes_nodescale.Prelude.{
  ℕ, String, Bool, true, false, ◌||◌, not, Option, none, some, ok, err, ◌>>=◌, ◌>>◌, fail_if, leb,
  ◌==◌, if◌then◌else◌, is_some,
}
use hermes_nodescale.Text.{Text}
use hermes_nodescale.OrderedSet.{contains}
use hermes_nodescale.Domain.Error.{Checked, invalid_value}
use hermes_nodescale.Domain.Identifier.{Uuid, JoinConstraints}
use hermes_nodescale.Domain.Roles.{Role, Roles, admin, ranked_role}
use hermes_nodescale.Domain.Lifecycle.{same}
use hermes_nodescale.Domain.Lifecycle.Invitation.{InvitationState, InvitationState-discrete, issued}
use hermes_nodescale.Domain.Verifier.{PhcParser, is_n4_verifier}
use hermes_nodescale.Domain.Binding.{Time}

pub data InvitationWorkflow : Type 0 where
  legacy n4a : InvitationWorkflow

abbrev pub is_n4a : InvitationWorkflow → Bool
is_n4a legacy = false
is_n4a n4a = true

-- `InvitationAdminIntent`, a token of explicit intent
pub data InvitationAdminIntent : Type 0 where
  explicit : InvitationAdminIntent

pub record Invitation : Type 0 where
  pub invitation_id : Uuid
  pub network_id : Uuid
  pub state : InvitationState
  pub roles : Roles
  pub created_at : Time
  pub expires_at : Time
  pub max_uses : ℕ
  pub used_count : ℕ
  pub secret_verifier : Text
  pub provider_credential_reference : Option Uuid
  pub join_constraints : JoinConstraints
  pub workflow : InvitationWorkflow
  pub elevated_admin_intent : Bool

-- `!=` on `bool`
abbrev bool_ne : Bool → Bool → Bool
bool_ne true b = not b
bool_ne false b = b

-- The `match` on (admin role, admin intent, N4).
abbrev issuance_case : Bool → Bool → Bool → Checked (Unit {0})
issuance_case true true true = ok tt
issuance_case false false _ = ok tt
issuance_case true false _ =
    err (invalid_value "invitation admin intent" "Role::Admin requires explicit elevated intent")
issuance_case false true _ =
    err (invalid_value "invitation admin intent" "cannot be present without Role::Admin")
issuance_case true true false =
    err
      (invalid_value "invitation admin intent" "Role::Admin requires the N4 invitation constructor")

validate_invitation_issuance : Roles → Option InvitationAdminIntent → Bool → Checked (Unit {0})
validate_invitation_issuance roles admin_intent n4 =
    issuance_case (contains roles admin) (is_some admin_intent) n4

-- What the constructors take in common.
pub record InvitationParts : Type 0 where
  pub invitation_id : Uuid
  pub network_id : Uuid
  pub roles : Roles
  pub secret_verifier : Text
  pub created_at : Time
  pub expires_at : Time
  pub max_uses : ℕ

-- `Invitation::build`
build : InvitationParts → JoinConstraints → InvitationWorkflow → Bool → Checked Invitation
build p join_constraints workflow elevated_admin_intent = do
  fail_if (leb p.expires_at p.created_at) (invalid_value "invitation expiry" "must follow creation")
  fail_if (p.max_uses == 0) (invalid_value "invitation max uses" "must be positive")
  ok (record {
    invitation_id = p.invitation_id;
    network_id = p.network_id;
    state = issued;
    roles = p.roles;
    created_at = p.created_at;
    expires_at = p.expires_at;
    max_uses = p.max_uses;
    used_count = 0;
    secret_verifier = p.secret_verifier;
    provider_credential_reference = none;
    join_constraints = join_constraints;
    workflow = workflow;
    elevated_admin_intent = elevated_admin_intent;
  })

-- `Invitation::new`
pub new_invitation : InvitationParts → Checked Invitation
unfolding validate_invitation_issuance build
new_invitation p = do
  validate_invitation_issuance p.roles none false
  build p (record { expected_platform = none; expected_hostname_hint = none }) legacy false

module _ (phc : PhcParser) where
  -- `Invitation::new_n4`
  pub new_n4_invitation :
      InvitationParts → Option InvitationAdminIntent → JoinConstraints → Checked Invitation
  unfolding validate_invitation_issuance build
  new_n4_invitation p admin_intent join_constraints = do
    validate_invitation_issuance p.roles admin_intent true
    fail_if (not (is_n4_verifier phc p.secret_verifier))
        (invalid_value "N4 invitation verifier" "must be generated from an InvitationToken")
    fail_if (not (p.max_uses == 1))
        (invalid_value "N4 invitation max uses" "N4 invitations are exactly single-use")
    build p join_constraints n4a (is_some admin_intent)

  -- `Invitation::validate_n4_issuance`
  pub validate_n4_issuance : Invitation → Checked (Unit {0})
  validate_n4_issuance i =
      fail_if
        (not (is_n4a i.workflow)
          || not (same InvitationState-discrete i.state issued)
          || not (is_n4_verifier phc i.secret_verifier)
          || not (i.max_uses == 1)
          || not (i.used_count == 0)
          || is_some i.provider_credential_reference
          || bool_ne (contains i.roles admin) i.elevated_admin_intent)
        (invalid_value "N4 invitation" "record does not satisfy N4 issuance invariants")
