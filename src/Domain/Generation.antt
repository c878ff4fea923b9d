-- ===== src/Domain/Generation.antt =====
-- crates/nodescale-domain/src/lib.rs: `Generation` over a u64, and `DeviceGenerations`.
mod Laws
mod Examples
use hermes_nodescale.Prelude.{
  ℕ, ◌+◌, ◌^◌, ◌-◌, Bool, not, ok, err, ◌>>=◌, ◌>>◌, fail_if, leb, ltb, ◌==◌, if◌then◌else◌, Option,
  none, some, ok_or,
}
use hermes_nodescale.Domain.Error.{
  Checked, invalid_value, stale_generation, non_monotonic_generation,
}

abbrev pub Generation : Type 0
Generation = ℕ

abbrev pub u64_max : ℕ
u64_max = 2 ^ 64 - 1

-- `u64::checked_add`
abbrev pub checked_add : ℕ → ℕ → Option ℕ
checked_add a b = if leb (a + b) u64_max then some (a + b) else none

-- `Generation::new`
unfoldable pub new_generation : ℕ → Checked Generation
new_generation value =
    if value == 0 then err (invalid_value "generation" "must be positive") else ok value

abbrev pub initial : Generation
initial = 1

unfoldable pub next_exact : Generation → Checked Generation
unfolding new_generation
next_exact g = ok_or (checked_add g 1) non_monotonic_generation >>= new_generation

unfoldable pub validate_advance : Generation → Generation → Generation → Checked (Unit {0})
validate_advance g expected next =
    if not (g == expected)
    then err (stale_generation expected g)
    else if leb next g
    then err non_monotonic_generation
    else ok tt

pub record DeviceGenerations : Type 0 where
  pub credential : Generation
  pub keryx_binding : Generation
  pub fleet_projection : Generation

pub initial_generations : DeviceGenerations
initial_generations = record {
  credential = initial;
  keryx_binding = initial;
  fleet_projection = initial;
}

pub advance_credential : Generation → Generation → DeviceGenerations → Checked DeviceGenerations
unfolding validate_advance
advance_credential expected next d = do
  validate_advance d.credential expected next
  ok (record d { credential = next })

pub advance_keryx_binding : Generation → Generation → DeviceGenerations → Checked DeviceGenerations
unfolding validate_advance
advance_keryx_binding expected next d = do
  validate_advance d.keryx_binding expected next
  ok (record d { keryx_binding = next })

unfoldable pub advance_fleet_projection :
    Generation → Generation → DeviceGenerations → Checked DeviceGenerations
unfolding validate_advance
advance_fleet_projection expected next d = do
  validate_advance d.fleet_projection expected next
  ok (record d { fleet_projection = next })
