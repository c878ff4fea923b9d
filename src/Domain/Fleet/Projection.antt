-- ===== src/Domain/Fleet/Projection.antt =====
-- crates/nodescale-domain/src/n7.rs: how an `N7FleetDesiredProjection` is made, validated and
-- advanced.
mod Laws
mod Exact
mod History
mod Examples
use hermes_nodescale.Prelude.{
  ℕ, String, Bool, true, false, ◌&&◌, ◌||◌, not, List, [], ◌∷◌, ok, err, ◌>>=◌, ◌>>◌, fail_if,
  if◌then◌else◌, ltb, ◌==◌, any, is_empty,
}
use hermes_nodescale.Text.{Text, text, text_eq, len, is_control, trim}
use hermes_nodescale.Domain.Error.{Checked, invalid_value, invalid_transition}
use hermes_nodescale.Domain.Identifier.{Uuid, UuidCrate}
use hermes_nodescale.Domain.Generation.{Generation, validate_advance}
use hermes_nodescale.Domain.Lifecycle.Membership.{MembershipState}
use hermes_nodescale.Domain.Roles.{Role, Roles, new_roles, ranked_role}
use hermes_nodescale.Domain.Binding.{KeryxBindingIdentity, reparse}
use hermes_nodescale.Domain.Fleet.Grants.{FleetGeneratedGrants, validate_grants}
use hermes_nodescale.Domain.Fleet.Provenance.{
  N6ActiveBindingProvenance, positive_generation, validate_provenance, from_active_binding,
}
use hermes_nodescale.Domain.Fleet.Content.{
  nodescale, FleetEnrollmentState, pending, disabled, removed, enrollment_str,
  N7FleetDesiredProjection, compute_content_digest,
}

pub validate_display_name : Text → Checked (Unit {0})
validate_display_name value =
    fail_if (is_empty (trim value) || ltb 128 (len value) || any is_control value)
      (invalid_value "Fleet projection display name" "must be 1..=128 printable characters")

-- `==` on `Roles`
abbrev pub roles_eq : Roles → Roles → Bool
roles_eq [] [] = true
roles_eq (a ∷ as') (b ∷ bs) = ranked_role.rank a == ranked_role.rank b && roles_eq as' bs
roles_eq _ _ = false

abbrev pub is_pending : FleetEnrollmentState → Bool
is_pending pending = true
is_pending _ = false

abbrev pub is_removed : FleetEnrollmentState → Bool
is_removed removed = true
is_removed _ = false

-- The arguments of `from_parts`.
pub record Parts : Type 0 where
  pub network_id : Uuid
  pub device_id : Uuid
  pub display_name : Text
  pub managed_membership_state : MembershipState
  pub membership_generation : Generation
  pub projection_generation : Generation
  pub binding_provenance : N6ActiveBindingProvenance
  pub roles : Roles
  pub enrollment_state : FleetEnrollmentState
  pub generated_grants : FleetGeneratedGrants

-- A projection whose digest is still empty.
abbrev pub undigested : Parts → N7FleetDesiredProjection
undigested a = record {
  source = nodescale;
  network_id = a.network_id;
  device_id = a.device_id;
  display_name = a.display_name;
  managed_membership_state = a.managed_membership_state;
  membership_generation = a.membership_generation;
  projection_generation = a.projection_generation;
  binding_provenance = a.binding_provenance;
  roles = a.roles;
  enrollment_state = a.enrollment_state;
  generated_grants = a.generated_grants;
  content_digest = [];
}

module _ (crate : UuidCrate) (sha256 : List ℕ → List ℕ) where
  unfoldable pub validate_without_digest : N7FleetDesiredProjection → Checked (Unit {0})
  validate_without_digest p = do
    reparse crate "network ID" p.network_id
    reparse crate "device ID" p.device_id
    validate_display_name p.display_name
    positive_generation p.membership_generation
    positive_generation p.projection_generation
    validate_provenance crate p.binding_provenance
    fail_if
        (not (p.binding_provenance.network_id == p.network_id)
          || not (p.binding_provenance.device_id == p.device_id))
        (invalid_value "N6 binding provenance" "must match projection network and device")
    canonical_roles ← new_roles p.roles
    fail_if (not (roles_eq canonical_roles p.roles))
        (invalid_value "Fleet projection roles" "must be canonical and non-empty")
    validate_grants p.generated_grants
    fail_if (not (is_pending p.enrollment_state) && not (is_empty p.generated_grants)) (
        invalid_value "Fleet projection grants"
          "disabled and removed enrollment must have no generated grants")

  -- `N7FleetDesiredProjection::validate`
  pub validate_projection : N7FleetDesiredProjection → Checked (Unit {0})
  unfolding validate_without_digest
  validate_projection p = do
    validate_without_digest p
    fail_if (not (text_eq p.content_digest (compute_content_digest crate sha256 p))) (
        invalid_value "Fleet projection content digest"
          "does not match canonical projection content")

  pub from_parts : Parts → Checked N7FleetDesiredProjection
  unfolding validate_without_digest
  from_parts a =
      let value = undigested a in
      do
        validate_without_digest value
        ok (record value { content_digest = compute_content_digest crate sha256 value })

  -- `upsert_from_active_n6_provenance`: the arguments but the state, which is pending
  pub upsert_from_active_n6_provenance : Parts → Checked N7FleetDesiredProjection
  unfolding from_parts
  upsert_from_active_n6_provenance a = from_parts (record a { enrollment_state = pending })

  -- `upsert`: the provenance comes from the binding
  pub upsert : Parts → KeryxBindingIdentity → Checked N7FleetDesiredProjection
  unfolding from_parts
  upsert a active_binding = do
    provenance ← from_active_binding crate active_binding
    from_parts (record a { binding_provenance = provenance; enrollment_state = pending })

  -- `transition`
  pub transition_projection :
      N7FleetDesiredProjection
      → FleetEnrollmentState
      → Generation
      → Checked N7FleetDesiredProjection
  unfolding validate_projection from_parts
  transition_projection p next_state next_generation = do
    validate_projection p
    fail_if (is_removed p.enrollment_state)
        (invalid_transition (enrollment_str p.enrollment_state) (enrollment_str next_state))
    validate_advance p.projection_generation p.projection_generation next_generation
    from_parts (record {
      network_id = p.network_id;
      device_id = p.device_id;
      display_name = p.display_name;
      managed_membership_state = p.managed_membership_state;
      membership_generation = p.membership_generation;
      projection_generation = next_generation;
      binding_provenance = p.binding_provenance;
      roles = p.roles;
      enrollment_state = next_state;
      generated_grants = [];
    })

  pub disable : N7FleetDesiredProjection → Generation → Checked N7FleetDesiredProjection
  unfolding transition_projection
  disable p next_generation = transition_projection p disabled next_generation

  pub remove : N7FleetDesiredProjection → Generation → Checked N7FleetDesiredProjection
  unfolding transition_projection
  remove p next_generation = transition_projection p removed next_generation
