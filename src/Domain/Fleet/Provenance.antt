-- ===== src/Domain/Fleet/Provenance.antt =====
-- crates/nodescale-domain/src/n7.rs: `N6ActiveBindingProvenance`, the evidence that a projection
-- is bound to an active binding.
pub mod Laws
use hermes_nodescale.Prelude.{Bool, true, false, not, ok, err, ◌>>=◌, ◌>>◌, fail_if, ok_or, discard}
use hermes_nodescale.Text.{Text}
use hermes_nodescale.Domain.Error.{Checked, invalid_value}
use hermes_nodescale.Domain.Identifier.{Uuid, UuidCrate, parse_bounded_id}
use hermes_nodescale.Domain.Generation.{Generation, new_generation}
use hermes_nodescale.Domain.Lifecycle.Keryx.{KeryxBindingState, active}
use hermes_nodescale.Domain.Binding.{KeryxBindingIdentity, reparse}

pub record N6ActiveBindingProvenance : Type 0 where
  pub network_id : Uuid
  pub device_id : Uuid
  pub binding_id : Uuid
  pub authenticated_peer_id : Text
  pub binding_generation : Generation

-- `positive_generation`
abbrev pub positive_generation : Generation → Checked (Unit {0})
positive_generation g = discard (new_generation g)

abbrev pub is_active : KeryxBindingState → Bool
is_active active = true
is_active _ = false

module _ (crate : UuidCrate) where
  -- `N6ActiveBindingProvenance::validate`
  unfoldable pub validate_provenance : N6ActiveBindingProvenance → Checked (Unit {0})
  validate_provenance p = do
    reparse crate "network ID" p.network_id
    reparse crate "device ID" p.device_id
    reparse crate "Keryx binding ID" p.binding_id
    discard (parse_bounded_id "Keryx peer ID" p.authenticated_peer_id)
    positive_generation p.binding_generation

  -- `N6ActiveBindingProvenance::new`, which is `from_verified_active_runtime_row` too
  pub new_provenance : N6ActiveBindingProvenance → Checked N6ActiveBindingProvenance
  unfolding validate_provenance
  new_provenance p = do validate_provenance p; ok p

  pub from_active_binding : KeryxBindingIdentity → Checked N6ActiveBindingProvenance
  unfolding new_provenance
  from_active_binding b = do
    fail_if (not (is_active b.state))
        (invalid_value "N6 binding provenance" "must reference an active N6 binding")
    peer ←
        ok_or b.verified_peer_id (
          invalid_value "N6 binding provenance" "active N6 binding must have an authenticated peer")
    new_provenance (record {
      network_id = b.network_id;
      device_id = b.device_id;
      binding_id = b.binding_id;
      authenticated_peer_id = peer;
      binding_generation = b.generation;
    })
