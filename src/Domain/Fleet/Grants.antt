-- ===== src/Domain/Fleet/Grants.antt =====
-- crates/nodescale-domain/src/n7.rs: `FleetGeneratedGrants`, the set, and its form as a JSON array
-- of the operations' names.
pub mod Laws
use hermes_nodescale.Prelude.{
  Bool, true, false, not, List, [], ◌∷◌, ok, err, ◌>>=◌, ◌>>◌, fail_if, if◌then◌else◌, all, Result,
}
use hermes_nodescale.Text.{Text}
use hermes_nodescale.OrderedSet.{insert, contains, from_list}
use hermes_nodescale.Domain.Error.{DomainError, Checked, invalid_value}
use hermes_nodescale.Domain.Roles.{
  Operation, fleet_health, fleet_inventory, fleet_message, fleet_hermes_run, ranked_operation,
  operation_from_str,
}

-- A `BTreeSet<Operation>`
abbrev pub FleetGeneratedGrants : Type 0
FleetGeneratedGrants = List Operation

-- the `matches!` of `validate`
abbrev pub is_generated : Operation → Bool
is_generated fleet_health = true
is_generated fleet_inventory = true
is_generated fleet_message = true
is_generated fleet_hermes_run = false

unfoldable pub validate_grants : FleetGeneratedGrants → Checked (Unit {0})
validate_grants grants = fail_if (not (all is_generated grants)) (
    invalid_value "generated Fleet grant" "must be fleet.health, fleet.inventory, or fleet.message")

-- `FleetGeneratedGrants::new`
pub new_grants : List Operation → Checked FleetGeneratedGrants
unfolding validate_grants
new_grants values = let grants = from_list values in do validate_grants grants; ok grants

-- A custom error of the deserializer.
pub data GrantsError : Type 0 where
  custom : DomainError → GrantsError
  duplicate : GrantsError

-- `.map_err(serde::de::Error::custom)`
abbrev pub map_custom : {A : Type 0} → Checked A → Result GrantsError A
map_custom (ok a) = ok a
map_custom (err e) = err (custom e)

-- the loop of `deserialize`
pub collect_grants : FleetGeneratedGrants → List Text → Result GrantsError FleetGeneratedGrants
collect_grants grants [] = ok grants
collect_grants grants (value ∷ values) = map_custom (operation_from_str value) >>= λ operation.
    let rest = collect_grants (insert operation grants) values in
    if contains grants operation then err duplicate else rest

pub deserialize_grants : List Text → Result GrantsError FleetGeneratedGrants
unfolding collect_grants new_grants
deserialize_grants values = collect_grants [] values >>= λ grants. map_custom (new_grants grants)
