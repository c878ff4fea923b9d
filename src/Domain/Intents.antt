-- ===== src/Domain/Intents.antt =====
-- crates/nodescale-domain/src/lib.rs: the N6 commands on a Keryx binding. Each constructor `new`
-- takes the fields of its record and the present time, makes its checks, and returns the record;
-- `validate_at` makes the same checks, in the same order, at a later time. Both are written over
-- one function of the checks.
mod Authorization
mod Fences
mod Requests
mod Examples
use hermes_nodescale.Prelude.{
  ℕ, String, Bool, true, false, ◌||◌, not, List, Option, ok, err, ◌>>=◌, ◌>>◌, fail_if, discard,
  leb, ltb, ◌==◌, if◌then◌else◌,
}
use hermes_nodescale.Text.{Text}
use hermes_nodescale.Domain.Error.{Checked, invalid_value, non_monotonic_generation}
use hermes_nodescale.Domain.Identifier.{
  Uuid, UuidCrate, parse_id, parse_bounded_id, parse_agent_version, parse_operation_id,
  parse_reason_code, AuditActor, validate_n6_audit_actor,
}
use hermes_nodescale.Domain.Generation.{Generation, next_exact}
use hermes_nodescale.Domain.Binding.{Time}

-- The 32 bytes of a binding nonce, which these records only carry.
abbrev pub BindingNonce : Type 0
BindingNonce = List ℕ

-- `revalidate_n6_uuid_id(&id, T::parse)`
abbrev pub revalidate_n6_uuid_id : UuidCrate → Uuid → String → Checked (Unit {0})
revalidate_n6_uuid_id crate id kind = discard (parse_id crate kind (crate.to_string id))

pub revalidate_n6_generation : Generation → Checked (Unit {0})
revalidate_n6_generation generation =
    if ltb 0 generation then ok tt else err (invalid_value "generation" "must be positive")

abbrev pub revalidate_n6_peer_id : Text → Checked (Unit {0})
revalidate_n6_peer_id peer_id = discard (parse_bounded_id "Keryx peer ID" peer_id)

abbrev pub revalidate_n6_agent_version : Text → Checked (Unit {0})
revalidate_n6_agent_version agent_version = discard (parse_agent_version agent_version)

abbrev pub revalidate_n6_operation_id : Text → Checked (Unit {0})
revalidate_n6_operation_id operation_id = discard (parse_operation_id operation_id)

abbrev pub revalidate_n6_reason_code : Text → Checked (Unit {0})
revalidate_n6_reason_code reason_code = discard (parse_reason_code reason_code)

pub validate_expiry : Time → Time → String → Checked (Unit {0})
validate_expiry expires_at now kind =
    if leb expires_at now then err (invalid_value kind "must be in the future") else ok tt

pub record N6BindingChallengeRequest : Type 0 where
  pub network_id : Uuid
  pub device_id : Uuid
  pub provider_binding_id : Uuid
  pub expected_authenticated_peer_id : Text
  pub generation : Generation
  pub expires_at : Time
  pub agent_version : Text

pub record N6BindingChallengeDelivery : Type 0 where
  pub challenge_id : Uuid
  pub binding_id : Uuid
  pub generation : Generation
  pub nonce : BindingNonce
  pub expires_at : Time

pub record N6AuthenticatedBindRequest : Type 0 where
  pub operation_id : Text
  pub network_id : Uuid
  pub device_id : Uuid
  pub provider_binding_id : Uuid
  pub binding_nonce : BindingNonce
  pub generation : Generation
  pub agent_version : Text

pub data Capability : Type 0 where
  rotate revoke : Capability

abbrev pub capability_eq : Capability → Capability → Bool
capability_eq rotate rotate = true
capability_eq revoke revoke = true
capability_eq _ _ = false

pub record KeryxBindingAuthorization : Type 0 where
  pub authorization_id : Uuid
  pub authority_id : Uuid
  pub actor : AuditActor
  pub capability : Capability
  pub binding_id : Uuid
  pub generation : Generation
  pub revision : ℕ
  pub expires_at : Time

pub record N6BindingRotationIntent : Type 0 where
  pub decision_id : Uuid
  pub authorization : KeryxBindingAuthorization
  pub predecessor_binding_id : Uuid
  pub predecessor_generation : Generation
  pub predecessor_revision : ℕ
  pub expected_next_generation : Generation
  pub expires_at : Time
  pub reason_code : Text

pub record N6BindingRevocationIntent : Type 0 where
  pub decision_id : Uuid
  pub authorization : KeryxBindingAuthorization
  pub binding_id : Uuid
  pub generation : Generation
  pub revision : ℕ
  pub expires_at : Time
  pub reason_code : Text

pub validate_exact_rotation_generation : Generation → Generation → Checked (Unit {0})
validate_exact_rotation_generation predecessor expected_next = do
  next ← next_exact predecessor
  if expected_next == next then ok tt else err non_monotonic_generation

module _ (crate : UuidCrate) where
  -- `N6BindingChallengeRequest::validate_at`
  pub request_valid_at : N6BindingChallengeRequest → Time → Checked (Unit {0})
  request_valid_at r now = do
    revalidate_n6_uuid_id crate r.network_id "network ID"
    revalidate_n6_uuid_id crate r.device_id "device ID"
    revalidate_n6_uuid_id crate r.provider_binding_id "provider binding ID"
    revalidate_n6_peer_id r.expected_authenticated_peer_id
    revalidate_n6_generation r.generation
    revalidate_n6_agent_version r.agent_version
    validate_expiry r.expires_at now "binding challenge expiry"

  pub new_challenge_request : N6BindingChallengeRequest → Time → Checked N6BindingChallengeRequest
  new_challenge_request r now = do request_valid_at r now; ok r

  -- `N6BindingChallengeDelivery::validate_at`
  pub delivery_valid_at : N6BindingChallengeDelivery → Time → Checked (Unit {0})
  delivery_valid_at d now = do
    revalidate_n6_uuid_id crate d.challenge_id "Keryx binding challenge ID"
    revalidate_n6_uuid_id crate d.binding_id "Keryx binding ID"
    revalidate_n6_generation d.generation
    validate_expiry d.expires_at now "binding challenge delivery expiry"

  pub new_challenge_delivery :
      N6BindingChallengeDelivery → Time → Checked N6BindingChallengeDelivery
  new_challenge_delivery d now = do delivery_valid_at d now; ok d

  -- `N6AuthenticatedBindRequest::new`
  pub new_bind_request : N6AuthenticatedBindRequest → Checked N6AuthenticatedBindRequest
  new_bind_request r = do
    revalidate_n6_operation_id r.operation_id
    revalidate_n6_uuid_id crate r.network_id "network ID"
    revalidate_n6_uuid_id crate r.device_id "device ID"
    revalidate_n6_uuid_id crate r.provider_binding_id "provider binding ID"
    revalidate_n6_generation r.generation
    revalidate_n6_agent_version r.agent_version
    ok r

  -- `KeryxBindingAuthorization::validate_at`
  pub authorization_valid_at : KeryxBindingAuthorization → Time → Checked (Unit {0})
  authorization_valid_at a now = do
    revalidate_n6_uuid_id crate a.authorization_id "Keryx binding authorization ID"
    revalidate_n6_uuid_id crate a.authority_id "trust authority ID"
    revalidate_n6_uuid_id crate a.binding_id "Keryx binding ID"
    revalidate_n6_generation a.generation
    validate_n6_audit_actor a.actor
    fail_if (a.revision == 0) (invalid_value "binding authorization revision" "must be positive")
    validate_expiry a.expires_at now "binding authorization expiry"

  pub new_authorization : KeryxBindingAuthorization → Time → Checked KeryxBindingAuthorization
  new_authorization a now = do authorization_valid_at a now; ok a

  pub validate_authorization :
      KeryxBindingAuthorization
      → Capability
      → Uuid
      → Generation
      → ℕ
      → Time
      → Time
      → Checked (Unit {0})
  validate_authorization a capability binding_id generation revision expires_at now = do
    authorization_valid_at a now
    validate_expiry expires_at now "binding intent expiry"
    fail_if
        (not (capability_eq a.capability capability)
          || not (a.binding_id == binding_id)
          || not (a.generation == generation)
          || not (a.revision == revision)
          || ltb a.expires_at expires_at)
        (invalid_value "binding authorization" "does not fence this intent")

  -- `N6BindingRotationIntent::validate_at`
  pub rotation_valid_at : N6BindingRotationIntent → Time → Checked (Unit {0})
  rotation_valid_at i now = do
    revalidate_n6_uuid_id crate i.decision_id "Keryx binding decision ID"
    revalidate_n6_uuid_id crate i.predecessor_binding_id "Keryx binding ID"
    revalidate_n6_generation i.predecessor_generation
    revalidate_n6_generation i.expected_next_generation
    revalidate_n6_reason_code i.reason_code
    validate_authorization i.authorization rotate i.predecessor_binding_id i.predecessor_generation
        i.predecessor_revision i.expires_at now
    validate_exact_rotation_generation i.predecessor_generation i.expected_next_generation

  pub new_rotation_intent : N6BindingRotationIntent → Time → Checked N6BindingRotationIntent
  new_rotation_intent i now = do rotation_valid_at i now; ok i

  -- `N6BindingRevocationIntent::validate_at`
  pub revocation_valid_at : N6BindingRevocationIntent → Time → Checked (Unit {0})
  revocation_valid_at i now = do
    revalidate_n6_uuid_id crate i.decision_id "Keryx binding decision ID"
    revalidate_n6_uuid_id crate i.binding_id "Keryx binding ID"
    revalidate_n6_generation i.generation
    revalidate_n6_reason_code i.reason_code
    validate_authorization i.authorization revoke i.binding_id i.generation i.revision i.expires_at
        now

  pub new_revocation_intent : N6BindingRevocationIntent → Time → Checked N6BindingRevocationIntent
  new_revocation_intent i now = do revocation_valid_at i now; ok i
