-- ===== src/Domain/Identifier/Laws.antt =====
-- crates/nodescale-domain/src/lib.rs: the bounded identifiers against one language of texts, and
-- the reparsing of a UUID.
use hermes_nodescale.Prelude.{
  ℕ, ◌≤◌, ◌≡◌, ◌↔◌, true, [], ◌∷◌, String, ok, err, arith, all, length, Option, none, some, ◌==◌,
  if◌then◌else◌,
}
use hermes_nodescale.Text.{Text, text, is_safe_byte}
use hermes_nodescale.Text.Laws.{all-safe-bytes, len-safe, len-nil, text_eq_iff}
use hermes_nodescale.Domain.Error.{invalid_value}
use hermes_nodescale.Domain.Identifier.{
  Uuid, UuidCrate, parse_id, parse_bounded_id, parse_agent_version, validate_safe_identifier,
  parse_operation_id, parse_reason_code, new_credential_reference, AuditActor,
  validate_n6_audit_actor_component, validate_n6_audit_actor,
}

-- Between 1 and `maximum` characters, each an ASCII letter or digit or one of `-_:.`.
pub record IsSafeIdentifier (maximum : ℕ) (s : Text) : Type 0 where
  pub not_empty : 1 ≤ length s
  pub bounded : length s ≤ maximum
  pub safe : all is_safe_byte s ≡ true

-- A peer or node ID is accepted exactly if it is 1 to 255 safe characters, an agent version or an
-- operation ID exactly if 1 to 128, a reason code exactly if 1 to 64, a credential reference
-- exactly if 1 to 255; what is accepted is the text that was given.
pub identifiers_exact :
    (kind : String) (s t : Text)
    → ((parse_bounded_id kind s ≡ ok t) ↔ (IsSafeIdentifier 255 s × (s ≡ t)))
      × ((parse_agent_version s ≡ ok t) ↔ (IsSafeIdentifier 128 s × (s ≡ t)))
      × ((parse_operation_id s ≡ ok t) ↔ (IsSafeIdentifier 128 s × (s ≡ t)))
      × ((parse_reason_code s ≡ ok t) ↔ (IsSafeIdentifier 64 s × (s ≡ t)))
      × ((new_credential_reference s ≡ ok t) ↔ (IsSafeIdentifier 255 s × (s ≡ t)))
unfolding parse_bounded_id parse_agent_version parse_operation_id parse_reason_code
    new_credential_reference validate_safe_identifier
identifiers_exact kind [] t = (
  (λ h. ground (arith, len-nil), λ h. ground (arith, len-nil)),
  (λ h. ground (arith, len-nil), λ h. ground (arith, len-nil)),
  (λ h. ground (arith, len-nil), λ h. ground (arith, len-nil)),
  (λ h. ground (arith, len-nil), λ h. ground (arith, len-nil)),
  (λ h. ground (arith, len-nil), λ h. ground (arith, len-nil)),
)
identifiers_exact kind (c ∷ s) t =
    let b = all-safe-bytes (c ∷ s) in
    let n = len-safe (c ∷ s) in
    (
      (λ h. ground (arith, b, n), λ h. ground (arith, b, n)),
      (λ h. ground (arith, b, n), λ h. ground (arith, b, n)),
      (λ h. ground (arith, b, n), λ h. ground (arith, b, n)),
      (λ h. ground (arith, b, n), λ h. ground (arith, b, n)),
      (λ h. ground (arith, b, n), λ h. ground (arith, b, n)),
    )

component_exact :
    (value : Text) (kind : String) (maximum : ℕ)
    → (validate_n6_audit_actor_component value kind maximum ≡ ok tt)
      ↔ IsSafeIdentifier maximum value
unfolding validate_n6_audit_actor_component
component_exact [] kind maximum = (λ h. ground (arith, len-nil), λ h. ground (arith, len-nil))
component_exact (c ∷ s) kind maximum =
    let b = all-safe-bytes (c ∷ s) in
    let n = len-safe (c ∷ s) in (λ h. ground (arith, b, n), λ h. ground (arith, b, n))

-- A UUID that is displayed and parsed again, as the revalidation of a typed ID does, is itself,
-- and is refused exactly if it is nil.
pub reparse_id :
    (crate : UuidCrate) (kind : String) (u : Uuid)
    → parse_id crate kind (crate.to_string u)
      ≡ (if u == 0 then err (invalid_value kind "nil UUID is forbidden") else ok u)
unfolding parse_id
reparse_id crate kind u = rw (crate.parse-to_string u) (ground arith)

-- What an audit actor's ID must be, given its source.
abbrev pub ActorFits : Text → Option Text → Type 0
ActorFits source (some i) = IsSafeIdentifier 255 i
ActorFits source none = source ≡ text "nodescale"

actor_fields_exact :
    (source : Text) (actor_id : Option Text)
    → (validate_n6_audit_actor (record { source = source; actor_id = actor_id }) ≡ ok tt)
      ↔ (IsSafeIdentifier 64 source × ActorFits source actor_id)
unfolding validate_n6_audit_actor
actor_fields_exact source none =
    let c = component_exact source "binding authorization actor source" 64 in
    let t = text_eq_iff source (text "nodescale") in
    (λ h. ground (arith, c, t), λ h. ground (arith, c, t))
actor_fields_exact source (some i) =
    let c = component_exact source "binding authorization actor source" 64 in
    let d = component_exact i "binding authorization actor ID" 255 in
    (λ h. ground (arith, c, d), λ h. ground (arith, c, d))

-- An audit actor is accepted exactly if its source is a safe identifier of at most 64 characters
-- and it names an actor by a safe identifier of at most 255, or names none and the source is
-- `nodescale`.
pub audit_actor_exact :
    (a : AuditActor)
    → (validate_n6_audit_actor a ≡ ok tt)
      ↔ (IsSafeIdentifier 64 a.source × ActorFits a.source a.actor_id)
audit_actor_exact a = actor_fields_exact a.source a.actor_id
