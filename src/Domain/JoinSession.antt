-- ===== src/Domain/JoinSession.antt =====
-- crates/nodescale-domain/src/lib.rs: `JoinSession`, its constructors and its two transitions.
-- `&mut self` methods return the new session.
mod N4
mod Examples
use hermes_nodescale.Prelude.{
  ℕ, String, Bool, true, false, ◌&&◌, ◌||◌, not, Option, none, ok, err, ◌>>=◌, ◌>>◌, fail_if, leb,
  if◌then◌else◌,
}
use hermes_nodescale.Text.{Text}
use hermes_nodescale.Domain.Error.{Checked, invalid_value, invalid_transition}
use hermes_nodescale.Domain.Identifier.{Uuid}
use hermes_nodescale.Domain.Binding.{Time}
use hermes_nodescale.Domain.Lifecycle.{same, transition}
use hermes_nodescale.Domain.Lifecycle.Join.{
  JoinSessionState, JoinSessionState-discrete, join_lifecycle, created, invitation_validated,
  provider_credential_issuing, provider_credential_issued, provider_credential_ambiguous,
  provider_credential_revocation_pending, mesh_join_observed, agent_registered,
  keryx_binding_pending, keryx_binding_verified, fleet_projection_pending, active, expired, failed,
  revoked,
}

pub data JoinWorkflow : Type 0 where
  legacy n4a : JoinWorkflow

pub record JoinSession : Type 0 where
  pub join_session_id : Uuid
  pub invitation_id : Uuid
  pub network_id : Uuid
  pub device_id : Option Uuid
  pub state : JoinSessionState
  pub created_at : Time
  pub expires_at : Time
  pub updated_at : Time
  pub failure_reason : Option Text
  pub workflow : JoinWorkflow

build : Uuid → Uuid → Uuid → Time → Time → JoinWorkflow → Checked JoinSession
build join_session_id invitation_id network_id created_at expires_at workflow = do
  fail_if (leb expires_at created_at) (invalid_value "join session expiry" "must follow creation")
  ok (record {
    join_session_id = join_session_id;
    invitation_id = invitation_id;
    network_id = network_id;
    device_id = none;
    state = created;
    created_at = created_at;
    expires_at = expires_at;
    updated_at = created_at;
    failure_reason = none;
    workflow = workflow;
  })

-- `JoinSession::new`
pub new_session : Uuid → Uuid → Uuid → Time → Time → Checked JoinSession
unfolding build
new_session join_session_id invitation_id network_id created_at expires_at =
    build join_session_id invitation_id network_id created_at expires_at legacy

-- `JoinSession::new_n4`
pub new_n4_session : Uuid → Uuid → Uuid → Time → Time → Checked JoinSession
unfolding build
new_n4_session join_session_id invitation_id network_id created_at expires_at =
    build join_session_id invitation_id network_id created_at expires_at n4a

abbrev pub is_n4_workflow : JoinWorkflow → Bool
is_n4_workflow legacy = false
is_n4_workflow n4a = true

-- The stages beyond the provider credential.
abbrev pub is_future_state : JoinSessionState → Bool
is_future_state mesh_join_observed = true
is_future_state agent_registered = true
is_future_state keryx_binding_pending = true
is_future_state keryx_binding_verified = true
is_future_state fleet_projection_pending = true
is_future_state active = true
is_future_state _ = false

refuse_move : JoinSession → JoinSessionState → Checked JoinSession
refuse_move s next =
    err (invalid_transition (join_lifecycle.as_str s.state) (join_lifecycle.as_str next))

-- `JoinSession::transition`
pub transition_session : JoinSession → JoinSessionState → Time → Checked JoinSession
unfolding refuse_move
transition_session s next now =
    let skips_credential_cleanup =
      same JoinSessionState-discrete s.state provider_credential_issued
      && not (same JoinSessionState-discrete next provider_credential_revocation_pending) in
    if is_n4_workflow s.workflow && (is_future_state next || skips_credential_cleanup)
    then refuse_move s next
    else (do state ← transition s.state next; ok (record s { state = state; updated_at = now }))

abbrev pub is_n4_state : JoinSessionState → Bool
is_n4_state created = true
is_n4_state invitation_validated = true
is_n4_state provider_credential_issuing = true
is_n4_state provider_credential_issued = true
is_n4_state provider_credential_ambiguous = true
is_n4_state provider_credential_revocation_pending = true
is_n4_state _ = false

abbrev pub is_n4_next : JoinSessionState → Bool
is_n4_next invitation_validated = true
is_n4_next provider_credential_issuing = true
is_n4_next provider_credential_issued = true
is_n4_next provider_credential_ambiguous = true
is_n4_next provider_credential_revocation_pending = true
is_n4_next expired = true
is_n4_next failed = true
is_n4_next revoked = true
is_n4_next _ = false

-- `JoinSession::advance_n4`
pub advance_n4 : JoinSession → JoinSessionState → Time → Checked JoinSession
unfolding refuse_move
advance_n4 s next now =
    if not (is_n4_workflow s.workflow)
    then refuse_move s next
    else if not (is_n4_state s.state) || not (is_n4_next next)
    then refuse_move s next
    else transition_session s next now
