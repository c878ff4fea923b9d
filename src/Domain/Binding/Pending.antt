-- ===== src/Domain/Binding/Pending.antt =====
-- crates/nodescale-domain/src/lib.rs: the constructors `KeryxBindingIdentity::pending` and
-- `KeryxBindingIdentity::pending_rotation`.
use hermes_nodescale.Prelude.{ℕ, ◌≤◌, ◌<◌, ◌≡◌, ◌≢◌, ◌↔◌, refl, Option, none, some, ok, arith}
use hermes_nodescale.Text.{Text}
use hermes_nodescale.Domain.Error.{Guarded}
use hermes_nodescale.Domain.Identifier.{Uuid, UuidCrate}
use hermes_nodescale.Domain.Generation.{Generation}
use hermes_nodescale.Domain.Lifecycle.Keryx.{pending}
use hermes_nodescale.Domain.Binding.{Time, KeryxBindingIdentity, from_persisted}
use hermes_nodescale.Domain.Binding.Consistent.{from_persisted_exact}

-- What both constructors take.
pub record PendingParts : Type 0 where
  pub binding_id : Uuid
  pub network_id : Uuid
  pub device_id : Uuid
  pub provider_binding_id : Uuid
  pub generation : Generation
  pub revision : ℕ
  pub created_at : Time
  pub agent_version : Text

abbrev pub pending_record : PendingParts → Option Uuid → KeryxBindingIdentity
pending_record p rotated_from = record {
  binding_id = p.binding_id;
  network_id = p.network_id;
  device_id = p.device_id;
  provider_binding_id = p.provider_binding_id;
  verified_peer_id = none;
  generation = p.generation;
  revision = p.revision;
  state = pending;
  created_at = p.created_at;
  confirmed_at = none;
  rotated_at = none;
  revoked_at = none;
  stale_at = none;
  last_verified_at = none;
  rotated_from = rotated_from;
  agent_version = p.agent_version;
}

pub new_pending : UuidCrate → PendingParts → Guarded KeryxBindingIdentity
new_pending crate p = from_persisted crate (pending_record p none)

pub new_pending_rotation : UuidCrate → PendingParts → Uuid → Guarded KeryxBindingIdentity
new_pending_rotation crate p rotated_from =
    from_persisted crate (pending_record p (some rotated_from))

abbrev pub WellNamed : PendingParts → Type 0
WellNamed p =
    (p.binding_id ≢ 0)
    × (p.network_id ≢ 0)
    × (p.device_id ≢ 0)
    × (p.provider_binding_id ≢ 0)
    × (1 ≤ p.revision)

-- A first pending binding is made exactly at generation one, and a pending rotation exactly at a
-- later generation, from another binding; both only from UUIDs other than nil and at a positive
-- revision.
pub pending_exact :
    (crate : UuidCrate) (p : PendingParts) (predecessor : Uuid)
    → ((new_pending crate p ≡ ok (pending_record p none)) ↔ (WellNamed p × (p.generation ≡ 1)))
      × ((new_pending_rotation crate p predecessor ≡ ok (pending_record p (some predecessor)))
          ↔ (WellNamed p × (1 < p.generation) × (predecessor ≢ 0) × (predecessor ≢ p.binding_id)))
unfolding new_pending new_pending_rotation
pending_exact crate p predecessor =
    let first = from_persisted_exact crate (pending_record p none) (pending_record p none) in
    let later =
      from_persisted_exact crate (pending_record p (some predecessor))
        (pending_record p (some predecessor)) in
    (
      (
        λ h. let c = (first.0 h).0 in ground (arith, c.authority, c.revised, c.lineage),
        λ h. first.1 (
          record {
            authority = ground arith;
            revised = h.0.4;
            created_first = ground arith;
            lineage = h.1;
            evidence = ground arith;
            confirmed_first = tt;
            timeline = ground arith;
          },
          refl,
        ),
      ),
      (
        λ h. let c = (later.0 h).0 in ground (arith, c.authority, c.revised, c.lineage),
        λ h. later.1 (
          record {
            authority = ground arith;
            revised = h.0.4;
            created_first = ground arith;
            lineage = ground arith;
            evidence = ground arith;
            confirmed_first = tt;
            timeline = ground arith;
          },
          refl,
        ),
      ),
    )
