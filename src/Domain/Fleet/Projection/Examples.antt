-- ===== src/Domain/Fleet/Projection/Examples.antt =====
-- The properties of the Fleet projection at concrete ones.
use hermes_nodescale.Prelude.{
  ℕ, ◌+◌, ◌%◌, ◌≤◌, ◌<◌, ◌≡◌, ◌≢◌, ◌↔◌, refl, arith, false, List, [], ◌∷◌, map, some, ok, length,
  inl,
}
use hermes_nodescale.Text.{Text, text, bytes, is_safe_byte}
use hermes_nodescale.Text.Laws.{len-safe}
use hermes_nodescale.OrderedSet.{from_list, contains, IsCanonical}
use hermes_nodescale.Domain.Samples.{sample_crate, sample_binding}
use hermes_nodescale.Domain.Identifier.Laws.{IsSafeIdentifier}
use hermes_nodescale.Domain.Lifecycle.Membership.{MembershipState}
use hermes_nodescale.Domain.Lifecycle.Keryx.{KeryxBindingState}
use hermes_nodescale.Domain.Binding.Consistent.{IsConsistent}
use hermes_nodescale.Domain.Roles.{
  Operation, worker, observer, fleet_health, fleet_message, fleet_hermes_run, ranked_role,
  ranked_operation, operation_str,
}
use hermes_nodescale.Domain.Fleet.Grants.{new_grants, deserialize_grants}
use hermes_nodescale.Domain.Fleet.Grants.Laws.{grants_made_exactly, grants_round_trip}
use hermes_nodescale.Domain.Fleet.Provenance.{N6ActiveBindingProvenance, from_active_binding}
use hermes_nodescale.Domain.Fleet.Provenance.Laws.{evidence_of, active_binding_is_evidence}
use hermes_nodescale.Domain.Fleet.Content.{N7FleetDesiredProjection, pending, disabled, removed}
use hermes_nodescale.Domain.Fleet.Content.Encoding.{AllCounted, canonical_parts-injective}
use hermes_nodescale.Domain.Fleet.Projection.{
  Parts, undigested, from_parts, transition_projection, remove,
}
use hermes_nodescale.Domain.Fleet.Projection.Laws.{IsDisplayName}
use hermes_nodescale.Domain.Fleet.Projection.Exact.{
  IsProjection, sealed, IsSealed, sealed-IsSealed, advanced, IsProjection-made_exactly,
}
use hermes_nodescale.Domain.Fleet.Projection.History.{
  transition_exact, to_disabled, to_removed, apply, run, IsWithdrawn, SameEnrollment,
  history_withdraws, removal_is_last,
}

abbrev two_grants : List Operation
two_grants = fleet_message ∷ fleet_health ∷ []

grants_made_exactly_example :
    ((new_grants two_grants ≡ ok (fleet_health ∷ fleet_message ∷ [])) ↔ (
      (contains two_grants fleet_hermes_run ≡ false)
      × (from_list two_grants ≡ fleet_health ∷ fleet_message ∷ [])))
    × (IsCanonical (from_list two_grants)
        × ((o : Operation) → contains (from_list two_grants) o ≡ contains two_grants o))
grants_made_exactly_example = grants_made_exactly two_grants (fleet_health ∷ fleet_message ∷ [])

abbrev grants : List Operation
grants = fleet_health ∷ fleet_message ∷ []

grants_in_order : IsCanonical grants
grants_in_order = (omega arith, tt)

grants_round_trip_example :
    deserialize_grants (map (λ o. text (operation_str o)) grants) ≡ ok grants
grants_round_trip_example = grants_round_trip grants grants_in_order refl

active_binding_is_evidence_example :
    (IsConsistent sample_binding
      → KeryxBindingState.active ≡ KeryxBindingState.active
      → (peer : Text) × (some (text "keryx-peer-7") ≡ some peer)
        × (from_active_binding sample_crate sample_binding ≡ ok (evidence_of sample_binding peer)))
    × ((p : N6ActiveBindingProvenance)
        → from_active_binding sample_crate sample_binding ≡ ok p
        → KeryxBindingState.active ≡ KeryxBindingState.active)
active_binding_is_evidence_example = active_binding_is_evidence sample_crate sample_binding

-- In place of SHA-256: one byte, the length.
abbrev digest : List ℕ → List ℕ
digest bs = (length bs % 256) ∷ []

abbrev parts : Parts
parts = record {
  network_id = 2;
  device_id = 3;
  display_name = text "host";
  managed_membership_state = MembershipState.active;
  membership_generation = 1;
  projection_generation = 1;
  binding_provenance = evidence_of sample_binding (text "key");
  roles = worker ∷ observer ∷ [];
  enrollment_state = pending;
  generated_grants = grants;
}

abbrev projection : N7FleetDesiredProjection
projection = sealed sample_crate digest parts

IsProjection-made_exactly_example :
    (from_parts sample_crate digest parts ≡ ok projection)
    ↔ (IsProjection (undigested parts) × (projection ≡ projection))
IsProjection-made_exactly_example = IsProjection-made_exactly sample_crate digest parts projection

positive : (n : ℕ) → 1 ≤ n → n ≢ 0
positive n h e = omega arith

host_name : IsDisplayName (text "host")
unfolding is_safe_byte
host_name = (refl, omega (arith, len-safe (text "host") refl), refl)

key_safe : IsSafeIdentifier 255 (text "key")
unfolding is_safe_byte
key_safe = record { not_empty = omega arith; bounded = omega arith; safe = refl }

projection-IsProjection : IsProjection projection
projection-IsProjection =
    let n = positive 2 (omega arith) in
    let d = positive 3 (omega arith) in
    let b = positive 12 (omega arith) in
    (
      n,
      (
        d,
        (
          host_name,
          (
            omega arith,
            (
              omega arith,
              (
                (n, (d, (b, (key_safe, omega arith)))),
                ((refl, refl), (((omega arith, tt), refl), (refl, inl refl))),
              ),
            ),
          ),
        ),
      ),
    )

abbrev off : N7FleetDesiredProjection
off = sealed sample_crate digest (advanced projection removed 4)

removal_accepted : remove sample_crate digest projection 4 ≡ ok off
unfolding remove
removal_accepted = (transition_exact sample_crate digest projection off removed 4).1 (
  (projection-IsProjection, sealed-IsSealed sample_crate digest parts),
  ((λ h. cc), (omega arith, refl)),
)

removal_is_last_example : apply sample_crate digest off (to_disabled 9) ≢ ok projection
removal_is_last_example =
    removal_is_last sample_crate digest projection off projection 4 (to_disabled 9) removal_accepted

removal_runs : run sample_crate digest projection (to_removed 4 ∷ []) ≡ ok off
unfolding run
removal_runs = rw removal_accepted refl

history_withdraws_example :
    IsWithdrawn off
    × (1 + length (to_removed 4 ∷ []) ≤ off.projection_generation)
    × SameEnrollment projection off
history_withdraws_example =
    history_withdraws sample_crate digest projection off (to_removed 4) [] removal_runs

transition_exact_example :
    (transition_projection sample_crate digest projection disabled 2
      ≡ ok (sealed sample_crate digest (advanced projection disabled 2)))
    ↔ ((IsProjection projection × IsSealed sample_crate digest projection)
        × ((pending ≢ removed)
            × ((1 < 2)
                × (sealed sample_crate digest (advanced projection disabled 2)
                    ≡ sealed sample_crate digest (advanced projection disabled 2)))))
transition_exact_example =
    transition_exact sample_crate digest projection
      (sealed sample_crate digest (advanced projection disabled 2)) disabled 2

abbrev two_parts : List Text
two_parts = text "roles-end" ∷ text "worker" ∷ []

two_parts-AllCounted : AllCounted two_parts
unfolding is_safe_byte
two_parts-AllCounted = (
  omega (arith, len-safe (text "roles-end") refl),
  (omega (arith, len-safe (text "worker") refl), tt),
)

canonical_parts-injective_example : map bytes two_parts ≡ map bytes two_parts
canonical_parts-injective_example =
    canonical_parts-injective two_parts two_parts two_parts-AllCounted two_parts-AllCounted refl
