-- ===== src/Domain/Generation/Laws.antt =====
-- crates/nodescale-domain/src/lib.rs: one advance of a generation, and sequences of them on a
-- device.
use hermes_nodescale.Prelude.{◌+◌, ◌≤◌, ◌<◌, ◌≡◌, ◌↔◌, List, [], ◌∷◌, ok, err, arith}
use hermes_nodescale.Domain.Error.{stale_generation, non_monotonic_generation}
use hermes_nodescale.Domain.Generation.{
  Generation, u64_max, DeviceGenerations, next_exact, validate_advance, advance_credential,
  advance_keryx_binding, advance_fleet_projection,
}

-- `next_exact` gives the successor exactly while that fits into 64 bits, and is an error at the
-- largest generation.
next_exact_successor :
    (g : Generation)
    → (g < u64_max → next_exact g ≡ ok (g + 1))
      × (u64_max ≤ g → next_exact g ≡ err non_monotonic_generation)
unfolding next_exact
next_exact_successor g = (λ h. ground arith, λ h. ground arith)

-- An advance is accepted exactly when the stored generation is the expected one and the next is
-- greater; the errors tell a stale expectation from a generation that does not grow.
pub validate_advance_cases :
    (g expected next : Generation)
    → ((validate_advance g expected next ≡ ok tt) ↔ ((g ≡ expected) × (g < next)))
      × ((validate_advance g expected next ≡ err non_monotonic_generation)
          ↔ ((g ≡ expected) × (next ≤ g)))
unfolding validate_advance
validate_advance_cases g expected next =
    ((λ h. ground arith, λ h. ground arith), (λ h. ground arith, λ h. ground arith))

-- One compare-and-set request on one of a device's three generations.
pub data Advance : Type 0 where
  credential keryx_binding fleet_projection : Generation → Generation → Advance

abbrev pub apply : DeviceGenerations → Advance → DeviceGenerations
apply d (credential expected next) = elim (advance_credential expected next d) [
  | ok d' ↦ d'
  | err _ ↦ d
]
apply d (keryx_binding expected next) = elim (advance_keryx_binding expected next d) [
  | ok d' ↦ d'
  | err _ ↦ d
]
apply d (fleet_projection expected next) = elim (advance_fleet_projection expected next d) [
  | ok d' ↦ d'
  | err _ ↦ d
]

abbrev pub apply_all : DeviceGenerations → List Advance → DeviceGenerations
apply_all d [] = d
apply_all d (a ∷ as') = apply_all (apply d a) as'

apply_grows :
    (d : DeviceGenerations) (a : Advance)
    → (d.credential ≤ (apply d a).credential)
      × (d.keryx_binding ≤ (apply d a).keryx_binding)
      × (d.fleet_projection ≤ (apply d a).fleet_projection)
unfolding advance_credential advance_keryx_binding advance_fleet_projection
apply_grows d (credential e n) = ground arith
apply_grows d (keryx_binding e n) = ground arith
apply_grows d (fleet_projection e n) = ground arith

-- Over every sequence of advances, accepted or refused, none of a device's three generations ever
-- falls.
pub generations_never_fall :
    (d : DeviceGenerations) (as' : List Advance)
    → (d.credential ≤ (apply_all d as').credential)
      × (d.keryx_binding ≤ (apply_all d as').keryx_binding)
      × (d.fleet_projection ≤ (apply_all d as').fleet_projection)
generations_never_fall d [] = omega arith
generations_never_fall d (a ∷ as') =
    omega (arith, apply_grows d a, generations_never_fall (apply d a) as')

-- Of two advances of the Fleet projection that expect the same stored generation, at most one is
-- accepted: after the first, the second is refused as stale and changes nothing.
pub second_writer_refused :
    (d d' : DeviceGenerations) (expected next other : Generation)
    → advance_fleet_projection expected next d ≡ ok d'
    → advance_fleet_projection expected other d' ≡ err (stale_generation expected next)
unfolding advance_fleet_projection
second_writer_refused d d' expected next other h = ground arith
