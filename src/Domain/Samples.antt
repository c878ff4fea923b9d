-- ===== src/Domain/Samples.antt =====
-- Values that the examples of several components use.
use hermes_nodescale.Prelude.{refl, [], ◌∷◌, Option, none, some}
use hermes_nodescale.Text.{Text, text}
use hermes_nodescale.Domain.Identifier.{Uuid, UuidCrate, AuditActor}
use hermes_nodescale.Domain.Lifecycle.Keryx.{active}
use hermes_nodescale.Domain.Binding.{KeryxBindingIdentity}

-- A UUID is written as one character, its value.
abbrev parse_one : Text → Option Uuid
parse_one (u ∷ []) = some u
parse_one _ = none

abbrev pub sample_crate : UuidCrate
sample_crate = record {
  parse_str = parse_one;
  to_string = λ u. u ∷ [];
  parse-to_string = λ u. refl;
}

abbrev pub sample_actor : AuditActor
sample_actor = record { source = text "nodescale"; actor_id = none }

-- The second binding of a device, active since it was confirmed.
abbrev pub sample_binding : KeryxBindingIdentity
sample_binding = record {
  binding_id = 12;
  network_id = 2;
  device_id = 3;
  provider_binding_id = 4;
  verified_peer_id = some (text "keryx-peer-7");
  generation = 2;
  revision = 3;
  state = active;
  created_at = 100;
  confirmed_at = some 110;
  rotated_at = none;
  revoked_at = none;
  stale_at = none;
  last_verified_at = some 120;
  rotated_from = some 11;
  agent_version = text "1.4.0";
}
