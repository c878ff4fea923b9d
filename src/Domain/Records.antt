-- ===== src/Domain/Records.antt =====
-- crates/nodescale-domain/src/lib.rs: `Network`, `Device` and `Revocation` and their constructors.
mod Laws
mod Examples
use hermes_nodescale.Prelude.{List, [], ◌∷◌, Option, none, ok, ◌>>=◌}
use hermes_nodescale.Text.{Text}
use hermes_nodescale.OrderedSet.{from_list}
use hermes_nodescale.Domain.Error.{Checked}
use hermes_nodescale.Domain.Identifier.{Uuid, ProviderIdentity, validate_name}
use hermes_nodescale.Domain.Binding.{Time, KeryxBindingIdentity}
use hermes_nodescale.Domain.Generation.{Generation, initial, DeviceGenerations, initial_generations}
use hermes_nodescale.Domain.Roles.{
  Roles, node, new_roles, Operation, fleet_health, fleet_inventory, fleet_message, ranked_role,
  ranked_operation,
}
use hermes_nodescale.Domain.Lifecycle.Network.{NetworkState, creating}
use hermes_nodescale.Domain.Lifecycle.Membership.{MembershipState, pending}
use hermes_nodescale.Domain.Lifecycle.Projection.{ProjectionStatus, not_requested}
use hermes_nodescale.Domain.Lifecycle.Revocation.{RevocationState, requested}

pub data ProviderKind : Type 0 where
  fake headscale tailscale : ProviderKind

pub record Network : Type 0 where
  pub network_id : Uuid
  pub name : Text
  pub state : NetworkState
  pub provider_kind : ProviderKind
  pub provider_instance_id : Uuid
  pub membership_generation : Generation
  pub policy_generation : Generation
  pub default_roles : Roles
  pub baseline_operations : List Operation
  pub created_at : Time
  pub updated_at : Time

-- `Network::new`
pub new_network : Uuid → Text → ProviderKind → Uuid → Time → Checked Network
new_network network_id name provider_kind provider_instance_id now = do
  name ← validate_name name "network name"
  default_roles ← new_roles (node ∷ [])
  ok (record {
    network_id = network_id;
    name = name;
    state = creating;
    provider_kind = provider_kind;
    provider_instance_id = provider_instance_id;
    membership_generation = initial;
    policy_generation = initial;
    default_roles = default_roles;
    baseline_operations = from_list (fleet_health ∷ fleet_inventory ∷ fleet_message ∷ []);
    created_at = now;
    updated_at = now;
  })

pub record Device : Type 0 where
  pub device_id : Uuid
  pub network_id : Uuid
  pub display_name : Text
  pub membership_state : MembershipState
  pub roles : Roles
  pub provider_identity : Option ProviderIdentity
  pub generations : DeviceGenerations
  pub keryx_binding : Option KeryxBindingIdentity
  pub fleet_projection_status : ProjectionStatus
  pub created_at : Time
  pub updated_at : Time
  pub revoked_at : Option Time
  pub revocation_reason : Option Text

-- `Device::new`
pub new_device : Uuid → Uuid → Text → Time → Checked Device
new_device device_id network_id display_name now = do
  display_name ← validate_name display_name "display name"
  roles ← new_roles (node ∷ [])
  ok (record {
    device_id = device_id;
    network_id = network_id;
    display_name = display_name;
    membership_state = pending;
    roles = roles;
    provider_identity = none;
    generations = initial_generations;
    keryx_binding = none;
    fleet_projection_status = not_requested;
    created_at = now;
    updated_at = now;
    revoked_at = none;
    revocation_reason = none;
  })

pub record Revocation : Type 0 where
  pub revocation_id : Uuid
  pub network_id : Uuid
  pub device_id : Uuid
  pub state : RevocationState
  pub requested_at : Time
  pub updated_at : Time
  pub application_trust_removed_at : Option Time
  pub provider_cleanup_completed_at : Option Time

-- `Revocation::requested`
pub new_revocation : Uuid → Uuid → Uuid → Time → Revocation
new_revocation revocation_id network_id device_id now = record {
  revocation_id = revocation_id;
  network_id = network_id;
  device_id = device_id;
  state = requested;
  requested_at = now;
  updated_at = now;
  application_trust_removed_at = none;
  provider_cleanup_completed_at = none;
}
