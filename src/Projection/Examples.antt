-- ===== src/Projection/Examples.antt =====
-- A reconciliation that Fleet answers, run.
use hermes_nodescale.Prelude.{◌+◌, ◌≡◌, refl, List, [], ◌∷◌, some, ok}
use hermes_nodescale.Text.{text, bytes, len, is_safe_byte}
use hermes_nodescale.Json.{SerdeJson, object, no_members}
use hermes_nodescale.FleetClient.{
  capabilities, apply, inspect, ProjectionDocument, new_document, ApplyOperation, authenticated,
  health, message, ApplyOutcome, active,
}
use hermes_nodescale.Domain.Samples.{sample_crate}
use hermes_nodescale.Domain.Roles.{node, fleet_health, fleet_message}
use hermes_nodescale.Domain.Generation.{new_generation, next_exact, advance_fleet_projection}
use hermes_nodescale.Domain.Lifecycle.{transition}
use hermes_nodescale.Domain.Lifecycle.Membership
use hermes_nodescale.Domain.Fleet.Content.{
  FleetProjectionSource, FleetEnrollmentState, N7FleetDesiredProjection, decimal,
}
use hermes_nodescale.State.Submission.{
  generation, new_binding, safe_identifier, sql_integer, sha256_fingerprint, canonical_json_bytes,
  from_canonical, new_observed,
}
use hermes_nodescale.State.Rows.{
  projection_view, transactional, binding_is_active, operation_projection, current_attempt_id,
}
use hermes_nodescale.State.Device.{set_device_status, advance_generation}
use hermes_nodescale.State.Reserve.{
  reserve_n7_projection, reserve_in, new_operation, first_projection, create_projection,
  insert_projection,
}
use hermes_nodescale.State.Attempt.{
  record_attempt, attempt_in, attempt_by_state, still_active, insert_attempt, begin_attempts,
  conclude_attempt,
}
use hermes_nodescale.State.Recover.{
  recover_from_inspection, recover_in, recover_by_state, recover_by_kind, insert_inspection,
  latest_body, judge, settle_projection, conclude_recovery,
}
use hermes_nodescale.State.Attempt.{claimed}
use hermes_nodescale.State.History.{Command, elsewhere, exec, run, empty_store}
use hermes_nodescale.State.Examples.{digest, body, start}
use hermes_nodescale.Projection.Document.{
  projection_document, generated_operation, generated_operations, generated_body,
  expected_generated_body,
}
use hermes_nodescale.Projection.Run.{World, Surroundings, ◌>>=◌}
use hermes_nodescale.Projection.Run.Sends.{Sends}
use hermes_nodescale.Projection.Budget.{one_apply}
use hermes_nodescale.Projection.Safety.{AllBacked, HasApplied}
use hermes_nodescale.Projection.Safety.Reconcile.{applies_are_backed, success_is_recorded}
use hermes_nodescale.Projection.Reconcile.{
  N7ProjectionOutcome, ensure_capabilities, inspection_of, read_back, recover, attempt, dispatch,
  by_inspection, inspect_and_recover, first_dispatch, by_attempted_state, first_attempt,
  by_reserved_state, after_reservation, submission_of, reconcile_document, reconcile_one,
}

abbrev json : SerdeJson
json = record { from_slice = λ _. some (object no_members); to_vec = λ _. body }

abbrev projection : N7FleetDesiredProjection
projection = record {
  source = FleetProjectionSource.nodescale;
  network_id = 2;
  device_id = 3;
  display_name = text "host";
  managed_membership_state = Membership.MembershipState.active;
  membership_generation = 4;
  projection_generation = 1;
  binding_provenance = record {
    network_id = 2;
    device_id = 3;
    binding_id = 98;
    authenticated_peer_id = text "peer";
    binding_generation = 2;
  };
  roles = node ∷ [];
  enrollment_state = FleetEnrollmentState.pending;
  generated_grants = fleet_health ∷ fleet_message ∷ [];
  content_digest = [];
}

abbrev document : ProjectionDocument
document = new_document digest (record {
  network_id = 2 ∷ [];
  device_id = 3 ∷ [];
  projection_generation = decimal 1;
  membership_generation = decimal 4;
  binding_generation = decimal 2;
  content_hash = [];
  operation = ApplyOperation.upsert;
  generated_operations = health ∷ message ∷ [];
  provenance = authenticated (2 ∷ []) (3 ∷ []) (decimal 1) (98 ∷ []) (text "peer");
})

made : projection_document sample_crate digest projection ≡ ok document
unfolding projection_document generated_operations generated_operation
made = refl

-- Fleet accepts the request and shows the projection.
abbrev env : Surroundings
env = record {
  capabilities = λ _. ok (capabilities ∷ apply ∷ inspect ∷ []);
  apply = λ _ _. ok ApplyOutcome.applied;
  inspect = λ _ _ _. ok (
      some (record {
        state = active;
        projection_generation = decimal 1;
        membership_generation = decimal 4;
        binding_generation = decimal 2;
        content_hash = document.content_hash;
        allowed_operations = document.generated_operations;
        provenance = document.provenance;
      }));
  clock = λ n. 10 + n;
  new_v4 = λ n. 100 + n;
}

abbrev world : World
world = record { store = start; writes = 0; trace = [] }

reconciled :
    (reconcile_one sample_crate json digest env (text "op") projection world).0
    ≡ ok N7ProjectionOutcome.applied
unfolding ◌>>=◌ reconcile_one reconcile_document submission_of after_reservation by_reserved_state
    ensure_capabilities first_attempt attempt by_attempted_state first_dispatch dispatch
    inspect_and_recover read_back inspection_of recover by_inspection projection_document
    generated_operations generated_operation expected_generated_body generated_body from_canonical
    canonical_json_bytes new_observed reserve_n7_projection record_attempt recover_from_inspection
    transactional reserve_in new_operation first_projection create_projection insert_projection
    set_device_status advance_generation projection_view generation new_generation next_exact
    advance_fleet_projection transition sql_integer new_binding safe_identifier bytes len
    is_safe_byte binding_is_active operation_projection attempt_in attempt_by_state still_active
    insert_attempt begin_attempts conclude_attempt claimed recover_in recover_by_state
    recover_by_kind insert_inspection latest_body judge settle_projection conclude_recovery
    current_attempt_id sha256_fingerprint
reconciled = refl

applies_are_backed_example :
    AllBacked
      (record { operation_id = text "op"; desired = projection; document = document })
      (reconcile_one sample_crate json digest env (text "op") projection world).1.trace
applies_are_backed_example =
    applies_are_backed sample_crate json digest env (text "op") projection document world made refl

-- The world's store is what other code makes of an empty one.
abbrev past : List Command
past = elsewhere start.bindings start.devices start.device_generations ∷ []

past-start : start ≡ run digest past empty_store
unfolding run exec
past-start = refl

success_is_recorded_example :
    HasApplied json
      (record { operation_id = text "op"; desired = projection; document = document })
      (reconcile_one sample_crate json digest env (text "op") projection world).1.store
success_is_recorded_example =
    success_is_recorded sample_crate json digest env (text "op") projection document world
      N7ProjectionOutcome.applied past made past-start refl reconciled refl

one_apply_example : Sends 1 4 (reconcile_one sample_crate json digest env (text "op") projection)
one_apply_example = one_apply sample_crate json digest env (text "op") projection
