-- ===== src/State/Reserve.antt =====
-- crates/nodescale-state/src/n7.rs: `reserve_n7_projection`. The new projection's random
-- identifier is an argument.
use hermes_nodescale.Prelude.{
  Bool, ◌&&◌, ◌||◌, not, ◌∷◌, none, ok, ◌>>=◌, ◌>>◌, fail_if, ok_or, ◌==◌, is_some, if_let_some,
  if◌then◌else◌,
}
use hermes_nodescale.Text.{text_eq}
use hermes_nodescale.Domain.Identifier.{Uuid}
use hermes_nodescale.Domain.Lifecycle.Projection.{pending}
use hermes_nodescale.State.Tables.{find}
use hermes_nodescale.State.Submission.{
  Stored, sqlite, not_found, stale_generation, sql_integer, N7ProjectionSubmission,
}
use hermes_nodescale.State.Rows.{
  Time, desired, ProjectionRow, projection_desired, Store, transactional, N7ProjectionView,
  projection_view, binding_eq, binding_is_active, matching_operation, operation_exists,
  insert_operation, find_record, append_audit,
}
use hermes_nodescale.State.Device.{
  find_device, find_generation, set_device_status, advance_generation,
}

-- `N7ProjectionReservationOutcome`
pub data ReservationOutcome : Type 0 where
  reserved : N7ProjectionView → ReservationOutcome
  replayed : N7ProjectionView → ReservationOutcome
  conflict : ReservationOutcome

abbrev pub Reservation : Type 0
Reservation = Stored (ReservationOutcome × Store)

-- The projection of the device at the submission's generation.
abbrev pub same_subject : N7ProjectionSubmission → ProjectionRow → Bool
same_subject submission r =
    r.device_id == submission.device_id && r.generation == submission.generation

abbrev pub differs : N7ProjectionView → N7ProjectionSubmission → Bool
differs view submission =
    not (view.network_id == submission.network_id)
    || not (text_eq view.desired_hash submission.desired_hash)
    || not (text_eq view.desired_body submission.desired_body)
    || not (binding_eq view.binding submission.binding)

-- A new operation for a projection that is there already.
unfoldable pub join_projection : ProjectionRow → N7ProjectionSubmission → Time → Store → Reservation
join_projection r submission now s = do
  view ← projection_view r.projection_id s
  if differs view submission
      then ok (conflict, s)
      else ok (replayed view, insert_operation r.projection_id submission now s)

abbrev pub desired_row : Uuid → N7ProjectionSubmission → Time → ProjectionRow
desired_row projection_id submission now = record {
  projection_id = projection_id;
  network_id = submission.network_id;
  device_id = submission.device_id;
  generation = submission.generation;
  desired_body = submission.desired_body;
  desired_hash = submission.desired_hash;
  binding = submission.binding;
  state = desired;
  revision = 1;
  current_attempt_id = none;
  persisted_at = now;
  attempted_at = none;
  applied_at = none;
  conflict_at = none;
}

-- The INSERT of the projection, which its primary key may refuse.
unfoldable pub insert_projection : Uuid → N7ProjectionSubmission → Time → Store → Stored Store
insert_projection projection_id submission now s = do
  fail_if (is_some (find_record projection_id s)) (sqlite "PRIMARY KEY")
  ok (record s { records = desired_row projection_id submission now ∷ s.records })

-- The rows that a first reservation writes.
unfoldable pub create_projection : Uuid → N7ProjectionSubmission → Time → Store → Reservation
create_projection projection_id submission now s = do
  s1 ← insert_projection projection_id submission now s
  s2 ←
      set_device_status submission.device_id pending now
        (insert_operation projection_id submission now s1)
  let audited =
      append_audit
        (record {
          projection_id = projection_id;
          operation_id = submission.operation_id;
          network_id = submission.network_id;
          device_id = submission.device_id;
          event_kind = projection_desired;
          generation = submission.generation;
          revision = 1;
          recorded_at = now;
        })
        s2
  s3 ← advance_generation submission.device_id submission.generation now audited
  view ← projection_view projection_id s3
  ok (reserved view, s3)

-- A projection of a generation that the device has none of yet.
unfoldable pub first_projection : Uuid → N7ProjectionSubmission → Time → Store → Reservation
first_projection projection_id submission now s = do
  actual ← ok_or (find_generation submission.device_id s) (not_found "device")
  fail_if (not (actual.fleet_projection_generation == submission.generation))
      (stale_generation submission.generation actual.fleet_projection_generation)
  device ← ok_or (find_device submission.device_id s) (sqlite "QueryReturnedNoRows")
  if not (device.network_id == submission.network_id)
        || not (binding_is_active submission.network_id submission.device_id submission.binding s)
      then ok (conflict, s)
      else create_projection projection_id submission now s

-- An operation that is not recorded with exactly this tuple.
unfoldable pub new_operation : Uuid → N7ProjectionSubmission → Time → Store → Reservation
new_operation projection_id submission now s =
    if operation_exists submission.operation_id s
    then ok (conflict, s)
    else if_let_some (find (same_subject submission) s.records)
        (λ r. join_projection r submission now s) (first_projection projection_id submission now s)

unfoldable pub reserve_in : Uuid → N7ProjectionSubmission → Time → Store → Reservation
reserve_in projection_id submission now s = do
  sql_integer submission.generation
  sql_integer submission.binding.binding_generation
  if_let_some (matching_operation submission s)
      (λ o. do view ← projection_view o.projection_id s; ok (replayed view, s))
      (new_operation projection_id submission now s)

-- `reserve_n7_projection`
unfoldable pub reserve_n7_projection :
    Uuid → N7ProjectionSubmission → Time → Store → Stored ReservationOutcome × Store
reserve_n7_projection projection_id submission now =
    transactional (reserve_in projection_id submission now)
