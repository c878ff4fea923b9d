-- ===== src/Domain/Fleet/Content.antt =====
-- crates/nodescale-domain/src/n7.rs: `N7FleetDesiredProjection` and the digest of its content.
-- SHA-256 is a parameter, from bytes to bytes.
pub mod Encoding
use hermes_nodescale.Prelude.{
  ℕ, ◌≡◌, refl, zero, suc, ◌+◌, ◌/◌, ◌%◌, ◌^◌, String, List, [], ◌∷◌, ◌++◌, map, ltb, if◌then◌else◌,
}
use hermes_nodescale.Text.{Text, text, bytes, len}
use hermes_nodescale.Domain.Identifier.{Uuid, UuidCrate}
use hermes_nodescale.Domain.Generation.{Generation}
use hermes_nodescale.Domain.Lifecycle.Membership.{
  MembershipState, joining, active, suspended, revoking, revoked,
}
use hermes_nodescale.Domain.Roles.{
  Role, Roles, node, worker, controller, profile_host, observer, admin, operation_str,
}
use hermes_nodescale.Domain.Fleet.Grants.{FleetGeneratedGrants}
use hermes_nodescale.Domain.Fleet.Provenance.{N6ActiveBindingProvenance}

pub data FleetProjectionSource : Type 0 where
  nodescale : FleetProjectionSource

abbrev source_str : FleetProjectionSource → String
source_str nodescale = "nodescale"

-- `FleetEnrollmentState`
pub data FleetEnrollmentState : Type 0 where
  pending disabled removed : FleetEnrollmentState

abbrev pub enrollment_str : FleetEnrollmentState → String
enrollment_str FleetEnrollmentState.pending = "pending"
enrollment_str disabled = "disabled"
enrollment_str removed = "removed"

pub data FleetProjectionOperation : Type 0 where
  upsert disable remove : FleetProjectionOperation

pub record N7FleetDesiredProjection : Type 0 where
  pub source : FleetProjectionSource
  pub network_id : Uuid
  pub device_id : Uuid
  pub display_name : Text
  pub managed_membership_state : MembershipState
  pub membership_generation : Generation
  pub projection_generation : Generation
  pub binding_provenance : N6ActiveBindingProvenance
  pub roles : Roles
  pub enrollment_state : FleetEnrollmentState
  pub generated_grants : FleetGeneratedGrants
  pub content_digest : Text

-- `N7FleetDesiredProjection::operation`
abbrev pub operation : N7FleetDesiredProjection → FleetProjectionOperation
operation p = elim p.enrollment_state [
  | FleetEnrollmentState.pending ↦ upsert
  | disabled ↦ disable
  | removed ↦ remove
]

abbrev managed_membership_state_name : MembershipState → String
managed_membership_state_name MembershipState.pending = "pending"
managed_membership_state_name joining = "joining"
managed_membership_state_name active = "active"
managed_membership_state_name suspended = "suspended"
managed_membership_state_name revoking = "revoking"
managed_membership_state_name revoked = "revoked"

abbrev role_name : Role → String
role_name node = "node"
role_name worker = "worker"
role_name controller = "controller"
role_name profile_host = "profile_host"
role_name observer = "observer"
role_name admin = "admin"

-- `u64::to_string`: a u64 has at most 20 decimal digits.
pub decimal_digits : ℕ → ℕ → Text
decimal_digits zero n = []
decimal_digits (suc fuel) n =
    let rest = decimal_digits fuel (n / 10) in
    if ltb n 10 then (48 + n) ∷ [] else rest ++ ((48 + n % 10) ∷ [])

abbrev pub decimal : ℕ → Text
decimal = decimal_digits 20

-- `u64::to_be_bytes`
abbrev to_be_bytes : ℕ → List ℕ
to_be_bytes n =
    n / 2 ^ 56 % 256
    ∷ n / 2 ^ 48 % 256
    ∷ n / 2 ^ 40 % 256
    ∷ n / 2 ^ 32 % 256
    ∷ n / 2 ^ 24 % 256
    ∷ n / 2 ^ 16 % 256
    ∷ n / 2 ^ 8 % 256
    ∷ n % 256
    ∷ []

-- What one part adds to the hasher.
canonical_part : Text → List ℕ
canonical_part value = to_be_bytes (len value) ++ bytes value

pub canonical_parts : List Text → List ℕ
unfolding canonical_part
canonical_parts [] = []
canonical_parts (value ∷ values) = canonical_part value ++ canonical_parts values

-- The two lowercase hexadecimal digits of a byte.
abbrev hex_digit : ℕ → ℕ
hex_digit d = if ltb d 10 then 48 + d else 87 + d

abbrev pub hex : List ℕ → Text
hex [] = []
hex (b ∷ bs) = hex_digit (b / 16) ∷ hex_digit (b % 16) ∷ hex bs

-- The values that `compute_content_digest` hashes, in order.
content_parts : UuidCrate → N7FleetDesiredProjection → List Text
unfolding decimal_digits
content_parts crate p =
    (text "nodescale.n7.fleet-projection.v1"
      ∷ text (source_str p.source)
      ∷ text (enrollment_str p.enrollment_state)
      ∷ crate.to_string p.network_id
      ∷ crate.to_string p.device_id
      ∷ p.display_name
      ∷ text (managed_membership_state_name p.managed_membership_state)
      ∷ decimal p.membership_generation
      ∷ decimal p.projection_generation
      ∷ crate.to_string p.binding_provenance.binding_id
      ∷ p.binding_provenance.authenticated_peer_id
      ∷ decimal p.binding_provenance.binding_generation
      ∷ map (λ role. text (role_name role)) p.roles)
    ++ (text "roles-end" ∷ map (λ grant. text (operation_str grant)) p.generated_grants)
    ++ (text "grants-end" ∷ [])

-- `compute_content_digest`
pub compute_content_digest : UuidCrate → (List ℕ → List ℕ) → N7FleetDesiredProjection → Text
unfolding content_parts canonical_parts
compute_content_digest crate sha256 p = hex (sha256 (canonical_parts (content_parts crate p)))

-- The digest does not depend on the digest that the projection carries.
pub digest_ignores_itself :
    (crate : UuidCrate) (sha256 : List ℕ → List ℕ) (p : N7FleetDesiredProjection) (d : Text)
    → compute_content_digest crate sha256 (record p { content_digest = d })
      ≡ compute_content_digest crate sha256 p
unfolding compute_content_digest content_parts
digest_ignores_itself crate sha256 p d = refl
