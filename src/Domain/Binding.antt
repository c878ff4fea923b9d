-- ===== src/Domain/Binding.antt =====
-- crates/nodescale-domain/src/lib.rs: `KeryxBindingIdentity` and its validation. Instants of time
-- are numbers, which the code only compares.
pub mod Laws
pub mod Consistent
pub mod Pending
mod Examples
use hermes_nodescale.Prelude.{
  ℕ, String, Bool, true, false, ◌&&◌, ◌||◌, not, List, [], ◌∷◌, Option, none, some, ok, err, ◌>>=◌,
  ◌>>◌, fail_if, discard, ltb, leb, ◌==◌, if◌then◌else◌, is_some, is_none,
}
use hermes_nodescale.Text.{Text}
use hermes_nodescale.Domain.Error.{Checked, invalid_value, Guarded, refused, panicked, guarded}
use hermes_nodescale.Domain.Identifier.{Uuid, UuidCrate, parse_id, parse_bounded_id}
use hermes_nodescale.Domain.Generation.{Generation}
use hermes_nodescale.Domain.Lifecycle.Keryx.{
  KeryxBindingState, pending, active, stale, rotated, revoked,
}

abbrev pub Time : Type 0
Time = ℕ

-- `KeryxBindingIdentityRecord`
pub record KeryxBindingIdentity : Type 0 where
  pub binding_id : Uuid
  pub network_id : Uuid
  pub device_id : Uuid
  pub provider_binding_id : Uuid
  pub verified_peer_id : Option Text
  pub generation : Generation
  pub revision : ℕ
  pub state : KeryxBindingState
  pub created_at : Time
  pub confirmed_at : Option Time
  pub rotated_at : Option Time
  pub revoked_at : Option Time
  pub stale_at : Option Time
  pub last_verified_at : Option Time
  pub rotated_from : Option Uuid
  pub agent_version : Text

-- `T::parse(&id.to_string())?` of a typed ID
abbrev pub reparse : UuidCrate → String → Uuid → Checked (Unit {0})
reparse crate kind id = discard (parse_id crate kind (crate.to_string id))

-- `if let Some(id) = … { T::parse(…)?; }`
abbrev pub reparse_some : UuidCrate → String → Option Uuid → Checked (Unit {0})
reparse_some crate kind none = ok tt
reparse_some crate kind (some id) = reparse crate kind id

abbrev pub peer_some : Option Text → Checked (Unit {0})
peer_some none = ok tt
peer_some (some peer_id) = discard (parse_bounded_id "Keryx peer ID" peer_id)

-- `validate_keryx_binding_identity_authority_values`
pub validate_authority_values : UuidCrate → KeryxBindingIdentity → Checked (Unit {0})
validate_authority_values crate r = do
  reparse crate "Keryx binding ID" r.binding_id
  reparse crate "network ID" r.network_id
  reparse crate "device ID" r.device_id
  reparse crate "provider binding ID" r.provider_binding_id
  reparse_some crate "Keryx binding ID" r.rotated_from
  peer_some r.verified_peer_id
  fail_if (r.generation == 0) (invalid_value "generation" "must be positive")

abbrev pub lineage_of : Uuid → Option Uuid → Checked (Unit {0})
lineage_of binding_id none =
    err (invalid_value "Keryx binding rotation" "successor generations require a predecessor")
lineage_of binding_id (some predecessor) =
    if not (predecessor == binding_id)
    then ok tt
    else err (invalid_value "Keryx binding rotation" "cannot rotate from itself")

-- `validate_keryx_binding_rotation_lineage`
pub validate_rotation_lineage : KeryxBindingIdentity → Checked (Unit {0})
validate_rotation_lineage r =
    if r.generation == 1
    then fail_if (is_some r.rotated_from)
        (invalid_value "Keryx binding rotation" "generation one cannot have a predecessor")
    else lineage_of r.binding_id r.rotated_from

-- `timestamp.is_some_and(|timestamp| timestamp < bound)`
abbrev pub is_before : Time → Option Time → Bool
is_before bound none = false
is_before bound (some t) = ltb t bound

-- The loops over timestamps.
pub timestamps_from : Time → String → List (Option Time) → Checked (Unit {0})
timestamps_from bound reason [] = ok tt
timestamps_from bound reason (t ∷ ts) =
    let rest = timestamps_from bound reason ts in
    if is_before bound t then err (invalid_value "Keryx binding timestamp" reason) else rest

-- The evidence that a state calls for.
pub evidence_fits : KeryxBindingState → KeryxBindingIdentity → Bool
evidence_fits s r =
    let peer_and_confirmation = is_some r.verified_peer_id && is_some r.confirmed_at in
    let no_peer_evidence = is_none r.verified_peer_id && is_none r.confirmed_at in
    elim s [
      | pending ↦
          no_peer_evidence
          && is_none r.rotated_at
          && is_none r.revoked_at
          && is_none r.stale_at
          && is_none r.last_verified_at
      | active ↦
          peer_and_confirmation
          && is_none r.rotated_at
          && is_none r.revoked_at
          && is_none r.stale_at
          && is_some r.last_verified_at
      | stale ↦
          peer_and_confirmation
          && is_some r.stale_at
          && is_none r.rotated_at
          && is_none r.revoked_at
          && is_some r.last_verified_at
      | rotated ↦
          peer_and_confirmation
          && is_some r.rotated_at
          && is_none r.revoked_at
          && is_some r.last_verified_at
      | revoked ↦
          is_some r.revoked_at
          && is_none r.rotated_at
          && ((no_peer_evidence && is_none r.stale_at && is_none r.last_verified_at)
              || (peer_and_confirmation && is_some r.last_verified_at))
    ]

-- `if let Some(confirmed_at) = record.confirmed_at { for … }`
abbrev pub after_confirmation : Option Time → List (Option Time) → Checked (Unit {0})
after_confirmation none ts = ok tt
after_confirmation (some confirmed_at) ts =
    timestamps_from confirmed_at "cannot precede confirmation" ts

-- `Option::or`
abbrev pub or_else : {A : Type 0} → Option A → Option A → Option A
or_else none b = b
or_else (some a) b = some a

-- `last_verification_upper_bound`
abbrev pub verification_bound : KeryxBindingState → KeryxBindingIdentity → Option Time
verification_bound stale r = r.stale_at
verification_bound rotated r = or_else r.stale_at r.rotated_at
verification_bound revoked r = or_else r.stale_at r.revoked_at
verification_bound _ r = none

-- `if let (Some(a), Some(b)) = (earlier, later) { if a > b { return Err(…) } }`
abbrev pub in_time_order : Option Time → Option Time → String → String → Checked (Unit {0})
in_time_order (some a) (some b) kind reason = fail_if (ltb b a) (invalid_value kind reason)
in_time_order _ _ kind reason = ok tt

-- The last check, whose `expect` panics on a verification without a confirmation.
abbrev pub verified_after_confirmation : Option Time → Option Time → Guarded (Unit {0})
verified_after_confirmation none confirmed_at = ok tt
verified_after_confirmation (some t) none = err (panicked "peer evidence includes confirmation")
verified_after_confirmation (some t) (some confirmed_at) =
    fail_if (ltb t confirmed_at)
      (refused (invalid_value "Keryx binding last verification" "cannot precede confirmation"))

-- The checks of `validate_keryx_binding_identity` up to the last.
pub validate_before_last : UuidCrate → KeryxBindingIdentity → Checked (Unit {0})
validate_before_last crate r = do
  validate_authority_values crate r
  fail_if (r.revision == 0) (invalid_value "Keryx binding revision" "must be positive")
  timestamps_from r.created_at "cannot precede creation"
      (r.confirmed_at ∷ r.rotated_at ∷ r.revoked_at ∷ r.stale_at ∷ r.last_verified_at ∷ [])
  validate_rotation_lineage r
  fail_if (not (evidence_fits r.state r)) (
      invalid_value "Keryx binding identity"
        "state evidence and lifecycle timestamps are inconsistent")
  fail_if (is_some r.last_verified_at && is_none r.verified_peer_id)
      (invalid_value "Keryx binding last verification" "requires verified peer evidence")
  after_confirmation r.confirmed_at
      (r.last_verified_at ∷ r.stale_at ∷ r.rotated_at ∷ r.revoked_at ∷ [])
  in_time_order r.last_verified_at (verification_bound r.state r) "Keryx binding last verification"
      "cannot follow an irreversible lifecycle transition"
  in_time_order r.stale_at r.rotated_at "Keryx binding timestamp"
      "stale evidence cannot follow rotation"
  in_time_order r.stale_at r.revoked_at "Keryx binding timestamp"
      "stale evidence cannot follow revocation"

pub validate_keryx_binding_identity : UuidCrate → KeryxBindingIdentity → Guarded (Unit {0})
validate_keryx_binding_identity crate r = do
  guarded (validate_before_last crate r)
  verified_after_confirmation r.last_verified_at r.confirmed_at

pub from_persisted : UuidCrate → KeryxBindingIdentity → Guarded KeryxBindingIdentity
from_persisted crate r = do validate_keryx_binding_identity crate r; ok r
