-- ===== src/Domain/Binding/Examples.antt =====
-- The properties of Keryx bindings at concrete ones.
use hermes_nodescale.Prelude.{◌<◌, ◌≡◌, ◌≢◌, ◌↔◌, none, some, ok, err}
use hermes_nodescale.Text.{text}
use hermes_nodescale.Domain.Error.{panicked}
use hermes_nodescale.Domain.Samples.{sample_crate, sample_binding}
use hermes_nodescale.Domain.Binding.{
  KeryxBindingIdentity, validate_keryx_binding_identity, from_persisted,
}
use hermes_nodescale.Domain.Binding.Consistent.{
  IsConsistent, from_persisted_exact, validation_never_panics,
}
use hermes_nodescale.Domain.Binding.Pending.{
  PendingParts, pending_record, new_pending, new_pending_rotation, WellNamed, pending_exact,
}

from_persisted_exact_example :
    (from_persisted sample_crate sample_binding ≡ ok sample_binding)
    ↔ (IsConsistent sample_binding × (sample_binding ≡ sample_binding))
from_persisted_exact_example = from_persisted_exact sample_crate sample_binding sample_binding

-- Verified, but never confirmed.
abbrev unconfirmed : KeryxBindingIdentity
unconfirmed = record sample_binding { confirmed_at = none }

validation_never_panics_example :
    validate_keryx_binding_identity sample_crate unconfirmed
    ≢ err (panicked "verified timestamp requires confirmation")
validation_never_panics_example =
    validation_never_panics sample_crate unconfirmed "verified timestamp requires confirmation"

abbrev next_binding : PendingParts
next_binding = record {
  binding_id = 13;
  network_id = 2;
  device_id = 3;
  provider_binding_id = 4;
  generation = 3;
  revision = 1;
  created_at = 200;
  agent_version = text "1.4.1";
}

pending_exact_example :
    ((new_pending sample_crate next_binding ≡ ok (pending_record next_binding none))
      ↔ (WellNamed next_binding × (next_binding.generation ≡ 1)))
    × ((new_pending_rotation sample_crate next_binding sample_binding.binding_id
          ≡ ok (pending_record next_binding (some sample_binding.binding_id)))
        ↔ (WellNamed next_binding
            × (1 < next_binding.generation)
            × (sample_binding.binding_id ≢ 0)
            × (sample_binding.binding_id ≢ next_binding.binding_id)))
pending_exact_example = pending_exact sample_crate next_binding sample_binding.binding_id
