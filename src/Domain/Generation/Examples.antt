-- ===== src/Domain/Generation/Examples.antt =====
-- The properties of generations at concrete ones.
use hermes_nodescale.Prelude.{ℕ, ◌≤◌, ◌≡◌, refl, List, [], ◌∷◌, ok}
use hermes_nodescale.Domain.Generation.{
  DeviceGenerations, validate_advance, advance_fleet_projection,
}
use hermes_nodescale.Domain.Generation.Laws.{
  Advance, credential, fleet_projection, apply_all, generations_never_fall,
}

abbrev stored : ℕ
stored = 3

abbrev device : DeviceGenerations
device = record { credential = 4; keryx_binding = 2; fleet_projection = 7 }

-- An advance, its repetition, and one that goes back.
abbrev advances : List Advance
advances = credential 4 6 ∷ credential 4 6 ∷ fleet_projection 7 5 ∷ []

generations_never_fall_example :
    (4 ≤ (apply_all device advances).credential)
    × (2 ≤ (apply_all device advances).keryx_binding)
    × (7 ≤ (apply_all device advances).fleet_projection)
generations_never_fall_example = generations_never_fall device advances

abbrev advanced : DeviceGenerations
advanced = record device { fleet_projection = 8 }

first_writer : advance_fleet_projection 7 8 device ≡ ok advanced
unfolding advance_fleet_projection validate_advance
first_writer = refl
