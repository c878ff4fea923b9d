-- ===== src/Domain/Identifier.antt =====
-- crates/nodescale-domain/src/lib.rs: the macros `uuid_id!` and `bounded_string_id!`, and the
-- other bounded strings (`ProviderIdentity`, `AgentVersion`, `OperationId`, `ReasonCode`,
-- `ProviderCredentialReference`, the audit actor's components, `validate_name`, join hints).
-- A tuple struct over one value is that value. The UUID's text form is the uuid crate's.
pub mod Laws
pub mod Names
use hermes_nodescale.Prelude.{
  ℕ, ◌≡◌, String, Bool, true, false, ◌&&◌, ◌||◌, not, List, Option, none, some, ok, err, ◌>>=◌,
  ◌>>◌, fail_if, ok_or, leb, ltb, ◌==◌, in_range, if◌then◌else◌, all, any, is_empty,
}
use hermes_nodescale.Text.{Text, text, text_eq, bytes, len, is_control, trim, is_safe_byte}
use hermes_nodescale.Domain.Error.{Checked, invalid_value}

-- A UUID is its 128-bit value; the nil UUID is 0.
abbrev pub Uuid : Type 0
Uuid = ℕ

-- What the source takes from the uuid crate: `Uuid::parse_str` and `Uuid`'s `Display`, and that a
-- displayed UUID is parsed back.
pub record UuidCrate : Type 0 where
  pub parse_str : Text → Option Uuid
  pub to_string : Uuid → Text
  pub parse-to_string : (u : Uuid) → parse_str (to_string u) ≡ some u

module _ (crate : UuidCrate) where
  -- `TypedId::parse`
  pub parse_id : String → Text → Checked Uuid
  parse_id kind value = do
    parsed ← ok_or (crate.parse_str value) (invalid_value kind "must be a UUID")
    fail_if (parsed == 0) (invalid_value kind "nil UUID is forbidden")
    ok parsed

-- The `parse` of `ProviderNodeId` and `KeryxPeerId`.
unfoldable pub parse_bounded_id : String → Text → Checked Text
parse_bounded_id kind value =
    let valid = not (is_empty value) && leb (len value) 255 && all is_safe_byte (bytes value) in
    if not valid
    then err (invalid_value kind "must be 1..=255 safe identifier characters")
    else ok value

pub record ProviderIdentity : Type 0 where
  pub provider_instance_id : Uuid
  pub node_id : Text
  pub stable_key_fingerprint : Text

-- `ProviderIdentity::new`
pub new_provider_identity : Uuid → Text → Text → Checked ProviderIdentity
new_provider_identity provider_instance_id node_id fingerprint =
    if is_empty fingerprint || ltb 512 (len fingerprint)
    then err (invalid_value "provider fingerprint" "must be bounded and non-empty")
    else ok (record {
      provider_instance_id = provider_instance_id;
      node_id = node_id;
      stable_key_fingerprint = fingerprint;
    })

-- `AgentVersion::parse`
unfoldable pub parse_agent_version : Text → Checked Text
parse_agent_version value =
    if not (in_range 1 128 (len value)) || not (all is_safe_byte (bytes value))
    then err (invalid_value "agent version" "must be 1..=128 ASCII [A-Za-z0-9_.:-] characters")
    else ok value

pub validate_safe_identifier : Text → String → ℕ → Checked (Unit {0})
validate_safe_identifier value kind maximum =
    fail_if (is_empty value || ltb maximum (len value) || not (all is_safe_byte (bytes value)))
      (invalid_value kind "must use bounded safe identifier characters")

-- `OperationId::parse`
pub parse_operation_id : Text → Checked Text
unfolding validate_safe_identifier
parse_operation_id value = do validate_safe_identifier value "operation ID" 128; ok value

-- `ReasonCode::parse`
pub parse_reason_code : Text → Checked Text
unfolding validate_safe_identifier
parse_reason_code value = do validate_safe_identifier value "reason code" 64; ok value

-- `ProviderCredentialReference::new`
pub new_credential_reference : Text → Checked Text
new_credential_reference value =
    let valid = not (is_empty value) && leb (len value) 255 && all is_safe_byte (bytes value) in
    if not valid
    then err
        (invalid_value "provider credential reference" "must be 1..=255 safe identifier characters")
    else ok value

pub record AuditActor : Type 0 where
  pub source : Text
  pub actor_id : Option Text

pub validate_n6_audit_actor_component : Text → String → ℕ → Checked (Unit {0})
validate_n6_audit_actor_component value kind maximum =
    fail_if (is_empty value || ltb maximum (len value) || not (all is_safe_byte (bytes value)))
      (invalid_value kind "must be a bounded safe audit actor identifier")

unfoldable pub validate_n6_audit_actor : AuditActor → Checked (Unit {0})
validate_n6_audit_actor actor = do
  validate_n6_audit_actor_component actor.source "binding authorization actor source" 64
  elim actor.actor_id [
    | some actor_id ↦
        validate_n6_audit_actor_component actor_id "binding authorization actor ID" 255
    | none ↦ fail_if (not (text_eq actor.source (text "nodescale"))) (
        invalid_value "binding authorization actor ID" "is required unless the source is nodescale")
  ]

unfoldable pub validate_name : Text → String → Checked Text
validate_name value kind =
    if is_empty (trim value) || ltb 128 (len value) || any is_control value
    then err (invalid_value kind "must be 1..=128 printable characters")
    else ok value

pub validate_join_hint : Option Text → String → ℕ → Checked (Unit {0})
validate_join_hint none kind max_len = ok tt
validate_join_hint (some hint) kind max_len =
    fail_if
      (is_empty hint
        || ltb max_len (len hint)
        || any is_control hint
        || not (text_eq (trim hint) hint))
      (invalid_value kind "must be a bounded printable hint, not an identity")

-- Optional bounded matching hints. They are not authenticated identity claims.
pub record JoinConstraints : Type 0 where
  pub expected_platform : Option Text
  pub expected_hostname_hint : Option Text

-- `JoinConstraints::new`
pub new_join_constraints : Option Text → Option Text → Checked JoinConstraints
unfolding validate_join_hint
new_join_constraints expected_platform expected_hostname_hint = do
  validate_join_hint expected_platform "expected platform" 64
  validate_join_hint expected_hostname_hint "expected hostname hint" 128
  ok (record {
    expected_platform = expected_platform;
    expected_hostname_hint = expected_hostname_hint;
  })
