-- ===== src/Domain/Records/Examples.antt =====
-- A device at a concrete name.
use hermes_nodescale.Prelude.{◌≡◌, refl, ok, arith}
use hermes_nodescale.Text.{text, len}
use hermes_nodescale.Domain.Records.{Device, new_device}
use hermes_nodescale.Domain.Records.Laws.{new_device_accepts}

named_device :
    (made : Device) × (new_device 3 2 (text "lab node") 100 ≡ ok made)
    × (made.display_name ≡ text "lab node")
unfolding len
named_device = new_device_accepts 3 2 (text "lab node") 100 (refl, ground arith, refl)
