-- ===== src/Domain/Fleet/Grants/Laws.antt =====
-- crates/nodescale-domain/src/n7.rs: `FleetGeneratedGrants` against the operations that were
-- given.
use hermes_nodescale.Prelude.{
  ◌≡◌, ◌↔◌, refl, arith, Bool, true, false, not, List, [], ◌∷◌, ok, fail_if, all, map,
  checked_value, sym, ◌∙◌,
}
use hermes_nodescale.Text.{text}
use hermes_nodescale.Domain.Error.{invalid_value}
use hermes_nodescale.OrderedSet.{from_list, insert, contains, IsCanonical}
use hermes_nodescale.OrderedSet.Laws.{contains-from_list, from_list-IsCanonical}
use hermes_nodescale.Domain.Roles.{
  Operation, fleet_health, fleet_inventory, fleet_message, fleet_hermes_run, ranked_operation,
  operation_str, operation_from_str,
}
use hermes_nodescale.Domain.Fleet.Grants.{
  FleetGeneratedGrants, is_generated, new_grants, validate_grants, collect_grants,
  deserialize_grants,
}

-- Generated grants, in the order of the set, are written as the names of their operations and read
-- back as they were.
pub grants_round_trip :
    (grants : FleetGeneratedGrants)
    → IsCanonical grants
    → all is_generated grants ≡ true
    → deserialize_grants (map (λ o. text (operation_str o)) grants) ≡ ok grants
unfolding deserialize_grants new_grants validate_grants collect_grants operation_from_str from_list
    insert contains
grants_round_trip [] c g = refl
grants_round_trip (fleet_health ∷ []) c g = refl
grants_round_trip (fleet_inventory ∷ []) c g = refl
grants_round_trip (fleet_message ∷ []) c g = refl
grants_round_trip (fleet_health ∷ fleet_inventory ∷ []) c g = refl
grants_round_trip (fleet_health ∷ fleet_message ∷ []) c g = refl
grants_round_trip (fleet_inventory ∷ fleet_message ∷ []) c g = refl
grants_round_trip (fleet_health ∷ fleet_inventory ∷ fleet_message ∷ []) c g = refl
grants_round_trip _ c g = ground arith

generated-contains : (s : List Operation) → all is_generated s ≡ not (contains s fleet_hermes_run)
unfolding contains
generated-contains [] = refl
generated-contains (fleet_health ∷ s) = generated-contains s
generated-contains (fleet_inventory ∷ s) = generated-contains s
generated-contains (fleet_message ∷ s) = generated-contains s
generated-contains (fleet_hermes_run ∷ s) = refl

not-false :
    (b : Bool)
    → (fail_if (not (not b)) (
          invalid_value "generated Fleet grant"
            "must be fleet.health, fleet.inventory, or fleet.message")
        ≡ ok tt)
      ↔ (b ≡ false)
not-false b = (λ h. ground arith, λ h. ground arith)

validate_grants_exact :
    (s : FleetGeneratedGrants) → (validate_grants s ≡ ok tt) ↔ (contains s fleet_hermes_run ≡ false)
unfolding validate_grants
validate_grants_exact s = rw (generated-contains s) (not-false (contains s fleet_hermes_run))

-- Grants are made of a collection of operations exactly if `fleet.hermes.run` is not among them;
-- they are a canonical set of the very operations given.
pub grants_made_exactly :
    (values : List Operation) (grants : FleetGeneratedGrants)
    → ((new_grants values ≡ ok grants)
        ↔ ((contains values fleet_hermes_run ≡ false) × (from_list values ≡ grants)))
      × (IsCanonical (from_list values)
          × ((o : Operation) → contains (from_list values) o ≡ contains values o))
unfolding new_grants
grants_made_exactly values grants =
    let value = checked_value (validate_grants (from_list values)) (from_list values) grants in
    let exact = validate_grants_exact (from_list values) in
    let members = contains-from_list values in
    (
      (
        λ h. let (v, e) = value.0 h in (sym (members fleet_hermes_run) ∙ exact.0 v, e),
        λ h. value.1 (exact.1 (members fleet_hermes_run ∙ h.0), h.1),
      ),
      (from_list-IsCanonical values, members),
    )
