-- ===== src/State/Examples.antt =====
-- The Fleet projections of one device, run.
use hermes_nodescale.Prelude.{ℕ, ◌≡◌, refl, true, false, List, [], ◌∷◌, some, ok, err}
use hermes_nodescale.Text.{Text, text, bytes, len, is_safe_byte}
use hermes_nodescale.Domain.Generation.{new_generation, next_exact, advance_fleet_projection}
use hermes_nodescale.Domain.Lifecycle.{transition}
use hermes_nodescale.Domain.Lifecycle.Projection.{not_requested}
use hermes_nodescale.State.Submission.{
  N7BindingProvenance, N7ProjectionSubmission, generation, new_binding, safe_identifier,
  sql_integer, observed, missing, StateError, sha256_fingerprint,
}
use hermes_nodescale.State.Rows.{
  Store, desired, attempted, applied, ProjectionRow, find_record, projection_view, N7ProjectionView,
  transactional, binding_is_active, operation_exists, operation_projection, current_attempt_id,
}
use hermes_nodescale.State.Device.{set_device_status, advance_generation}
use hermes_nodescale.State.Reserve.{
  reserved, replayed, reserve_n7_projection, reserve_in, new_operation, join_projection,
  first_projection, create_projection, insert_projection, desired_row,
}
use hermes_nodescale.State.Attempt.{
  AttemptRequest, record_attempt, attempt_in, attempt_by_state, still_active, insert_attempt,
  begin_attempts, conclude_attempt, claimed,
}
use hermes_nodescale.State.Recover.{
  RecoverRequest, recover_from_inspection, recover_in, recover_by_state, recover_by_kind,
  insert_inspection, latest_body, judge, settle_projection, conclude_recovery,
}
use hermes_nodescale.State.Replay.{reserve_again}
use hermes_nodescale.State.Refusal.{inspects, joined_operation_cannot_inspect}
use hermes_nodescale.State.History.Moves.{Moves, exec-Moves}
use hermes_nodescale.State.History.Lifelong.{
  IsSuccessor, projection_lives_on, settled_projection_stays,
}
use hermes_nodescale.State.History.Numbers.{HasCountedAttempts, attempts_counted}
use hermes_nodescale.State.History.Evidence.{IsEvidenced}
use hermes_nodescale.State.History.Settlement.{settled_by_evidence}
use hermes_nodescale.State.History.Subjects.{IsUniqueBySubject, one_projection_per_generation}
use hermes_nodescale.State.History.{
  Command, reserve, attempt, recover, elsewhere, exec, run, empty_store,
}

abbrev pub digest : List ℕ → List ℕ
digest body = body

abbrev pub binding : N7BindingProvenance
binding = record {
  binding_id = text "b";
  authenticated_peer_id = text "peer";
  binding_generation = 2;
}

abbrev pub body : List ℕ
body = 123 ∷ 125 ∷ []

abbrev pub submission : Text → N7ProjectionSubmission
submission operation_id = record {
  operation_id = operation_id;
  network_id = 2;
  device_id = 3;
  generation = 1;
  desired_body = body;
  desired_hash = text "sha256:7b7d";
  binding = binding;
}

-- A device with an active binding and no projection yet.
abbrev pub start : Store
start = record empty_store {
  bindings =
      record {
        binding_id = text "b";
        network_id = 2;
        device_id = 3;
        verified_peer_id = some (text "peer");
        generation = 2;
        is_active = true;
      }
      ∷ [];
  devices =
      record {
        device_id = 3;
        network_id = 2;
        fleet_projection_generation = 1;
        fleet_projection_status = not_requested;
        document = record {
          generations = record { credential = 1; keryx_binding = 2; fleet_projection = 1 };
          fleet_projection_status = not_requested;
          updated_at = 5;
        };
      }
      ∷ [];
  device_generations = record { device_id = 3; fleet_projection_generation = 1 } ∷ [];
}

abbrev pub first_view : N7ProjectionView
first_view = record {
  projection_id = 100;
  network_id = 2;
  device_id = 3;
  generation = 1;
  desired_body = body;
  desired_hash = text "sha256:7b7d";
  binding = binding;
  revision = 1;
  state = desired;
}

abbrev pub reserved_store : Store
reserved_store = (reserve_n7_projection 100 (submission (text "op")) 10 start).1

reserves :
    reserve_n7_projection 100 (submission (text "op")) 10 start
    ≡ (ok (reserved first_view), reserved_store)
unfolding reserve_n7_projection transactional reserve_in new_operation first_projection
    create_projection insert_projection set_device_status advance_generation projection_view
    generation new_generation next_exact advance_fleet_projection transition sql_integer new_binding
    safe_identifier bytes len is_safe_byte binding_is_active
reserves = refl

reserve_again_example :
    reserve_n7_projection 101 (submission (text "op")) 20 reserved_store
    ≡ (ok (replayed first_view), reserved_store)
reserve_again_example =
    reserve_again 100 101 (submission (text "op")) 10 20 start reserved_store (reserved first_view)
      first_view reserves refl

abbrev first_attempt : AttemptRequest
first_attempt = record {
  operation_id = text "op";
  device_id = 3;
  generation = 1;
  expected_revision = 1;
  attempt_id = 200;
  now = 11;
}

-- A second operation joins the projection before its first attempt.
abbrev attempted_commands : List Command
attempted_commands =
    reserve 100 (submission (text "op")) 10
    ∷ reserve 101 (submission (text "op2")) 10
    ∷ attempt first_attempt
    ∷ []

abbrev inspection : Text → RecoverRequest
inspection operation_id = record {
  operation_id = operation_id;
  device_id = 3;
  generation = 1;
  expected_revision = 2;
  inspection = observed body (text "sha256:7b7d");
  now = 12;
}

abbrev settled_commands : List Command
settled_commands = attempt first_attempt ∷ recover (inspection (text "op")) ∷ []

abbrev reserved_row : ProjectionRow
reserved_row = desired_row 100 (submission (text "op")) 10

abbrev applied_row : ProjectionRow
applied_row = record reserved_row {
  state = applied;
  revision = 3;
  current_attempt_id = some 200;
  attempted_at = some 11;
  applied_at = some 12;
}

-- The whole life of a projection that Fleet shows as it was desired.
is_applied : find_record 100 (run digest settled_commands reserved_store) ≡ some applied_row
unfolding run exec reserve_n7_projection record_attempt recover_from_inspection transactional
    reserve_in new_operation first_projection create_projection insert_projection set_device_status
    advance_generation projection_view generation new_generation next_exact advance_fleet_projection
    transition sql_integer new_binding safe_identifier bytes len is_safe_byte binding_is_active
    operation_projection attempt_in attempt_by_state still_active insert_attempt begin_attempts
    conclude_attempt claimed recover_in recover_by_state recover_by_kind insert_inspection
    latest_body judge settle_projection conclude_recovery current_attempt_id sha256_fingerprint
is_applied = refl

exec-Moves_example :
    Moves
      (find_record 100 start)
      (find_record 100 (exec digest (reserve 100 (submission (text "op")) 10) start))
exec-Moves_example = exec-Moves digest (reserve 100 (submission (text "op")) 10) start 100

reserved_found : find_record 100 reserved_store ≡ some reserved_row
unfolding reserve_n7_projection transactional reserve_in new_operation first_projection
    create_projection insert_projection set_device_status advance_generation projection_view
    generation new_generation next_exact advance_fleet_projection transition sql_integer new_binding
    safe_identifier bytes len is_safe_byte binding_is_active
reserved_found = refl

projection_lives_on_example :
    IsSuccessor reserved_row (find_record 100 (run digest settled_commands reserved_store))
projection_lives_on_example =
    projection_lives_on digest settled_commands reserved_store 100 reserved_row reserved_found

abbrev applied_store : Store
applied_store = run digest settled_commands reserved_store

settled_projection_stays_example :
    find_record 100 (run digest attempted_commands applied_store) ≡ some applied_row
settled_projection_stays_example =
    settled_projection_stays digest attempted_commands applied_store 100 applied_row is_applied refl

-- The device appears, and its projection is reserved, attempted and settled.
abbrev from_nothing : List Command
from_nothing =
    elsewhere start.bindings start.devices start.device_generations
    ∷ reserve 100 (submission (text "op")) 10
    ∷ settled_commands

settled_by_evidence_example : IsEvidenced digest (run digest from_nothing empty_store)
settled_by_evidence_example = settled_by_evidence digest from_nothing

attempts_counted_example : HasCountedAttempts (run digest from_nothing empty_store)
attempts_counted_example = attempts_counted digest from_nothing

one_projection_per_generation_example : IsUniqueBySubject (run digest from_nothing empty_store)
one_projection_per_generation_example = one_projection_per_generation digest from_nothing

-- The projection is attempted by one operation, and then another asks for it.
abbrev past_commands : List Command
past_commands =
    elsewhere start.bindings start.devices start.device_generations
    ∷ reserve 100 (submission (text "op")) 10
    ∷ attempt first_attempt
    ∷ []

abbrev past_store : Store
past_store = run digest past_commands empty_store

abbrev joined_store : Store
joined_store = (reserve_n7_projection 101 (submission (text "op2")) 20 past_store).1

abbrev attempted_view : N7ProjectionView
attempted_view = record first_view { revision = 2; state = attempted }

op2_joins :
    (operation_exists (text "op2") past_store ≡ false)
    × (reserve_n7_projection 101 (submission (text "op2")) 20 past_store
        ≡ (ok (replayed attempted_view), joined_store))
unfolding run exec reserve_n7_projection record_attempt transactional reserve_in new_operation
    join_projection first_projection create_projection insert_projection set_device_status
    advance_generation projection_view generation new_generation next_exact advance_fleet_projection
    transition sql_integer new_binding safe_identifier bytes len is_safe_byte binding_is_active
    operation_projection attempt_in attempt_by_state still_active insert_attempt begin_attempts
    conclude_attempt claimed
op2_joins = (refl, refl)

joined_operation_cannot_inspect_example :
    (e : StateError) × (recover_from_inspection digest
        (inspects (submission (text "op2")) attempted_view missing 30)
        joined_store
      ≡ (err e, joined_store))
joined_operation_cannot_inspect_example =
    joined_operation_cannot_inspect digest past_commands 101 (submission (text "op2")) 20 30 missing
      attempted_view past_store joined_store refl op2_joins.0 op2_joins.1 refl
