-- ===== src/State/Effects.antt =====
-- crates/nodescale-state/src/n7.rs: what each operation on a Fleet projection wrote, when it
-- returned Ok. The children tell it for one operation each.
pub mod Reserve
pub mod Attempt
pub mod Recover
pub mod Operations
pub mod Recorded
use hermes_nodescale.Prelude.{
  ℕ, ◌≡◌, refl, ap, sym, ◌∙◌, ◌⊎◌, inl, inr, Bool, true, false, Option, none, some, List, [], ◌∷◌,
  ok, err, ◌>>=◌, ◌>>◌, >>=-eq-ok, fail_if, ok_or, arith, Option-cases, Bool-cases, is_some,
}
use hermes_nodescale.Text.{Text}
use hermes_nodescale.Domain.Identifier.{Uuid}
use hermes_nodescale.Domain.Generation.{Generation, new_generation}
use hermes_nodescale.Domain.Lifecycle.Projection.{ProjectionStatus, pending}
use hermes_nodescale.State.Tables.{find, update_where}
use hermes_nodescale.State.Submission
use hermes_nodescale.State.Submission.{
  Stored, StateError, new_binding, N7BindingProvenance, N7ProjectionSubmission,
}
use hermes_nodescale.State.Yields.{
  yields_rules, Yields, Yields-ok, Yields-err, Yields-if, Yields-if_let_some, Yields-bind,
  Yields-ok_or, Yields-fail_if, Yields-weaken,
}
use hermes_nodescale.State.Rows.{
  Time, Store, ProjectionRow, AttemptRow, InspectionRow, N7ProjectionView, projection_view,
  find_record, operation_projection, find_operation, not_nil,
}
use hermes_nodescale.State.Device.{set_device_status, advance_generation}
use hermes_nodescale.State.Reserve.{
  ReservationOutcome, reserved, replayed, conflict, reserve_in, new_operation, first_projection,
  create_projection, insert_projection, join_projection, same_subject, desired_row,
}

-- The three tables that decide how a projection stands.
pub record SameTables (s t : Store) : Type 0 where
  pub records : t.records ≡ s.records
  pub attempts : t.attempts ≡ s.attempts
  pub inspections : t.inspections ≡ s.inspections

abbrev pub same_tables : (s : Store) → SameTables s s
same_tables s = record { records = refl; attempts = refl; inspections = refl }

-- `n7_set_device_status` writes only devices.
pub set_device_status-SameTables :
    (d : Uuid) (status : ProjectionStatus) (now : Time) (s : Store)
    → Yields (SameTables s) (set_device_status d status now s)
unfolding set_device_status
set_device_status-SameTables d status now s = search (yields_rules, Yields-ok)

-- `n7_advance_fleet_projection_generation_tx` writes only devices and their generations.
pub advance_generation-SameTables :
    (d : Uuid) (g : Generation) (now : Time) (s : Store)
    → Yields (SameTables s) (advance_generation d g now s)
unfolding advance_generation
advance_generation-SameTables d g now s = search (yields_rules, Yields-ok) depth 12

-- A view shows the row that a projection has.
pub record Shows (pid : Uuid) (s : Store) (view : N7ProjectionView) : Type 0 where
  pub row : ProjectionRow
  pub found : find_record pid s ≡ some row
  pub projection_id : view.projection_id ≡ pid
  pub network_id : view.network_id ≡ row.network_id
  pub device_id : view.device_id ≡ row.device_id
  pub generation : view.generation ≡ row.generation
  pub desired_body : view.desired_body ≡ row.desired_body
  pub desired_hash : view.desired_hash ≡ row.desired_hash
  pub binding : view.binding ≡ row.binding
  pub revision : view.revision ≡ row.revision
  pub state : view.state ≡ row.state

generation-same : (g : Generation) → Yields (λ h. h ≡ g) (Submission.generation g)
unfolding Submission.generation new_generation
generation-same g = record { at = λ h e. ground arith }

new_binding-same :
    (b : N7BindingProvenance) (g : Generation)
    → g ≡ b.binding_generation
    → Yields (λ c. c ≡ b) (new_binding b.binding_id b.authenticated_peer_id g)
unfolding new_binding
new_binding-same b g e = search (yields_rules, Yields-ok, e)

pub projection_view-Shows : (pid : Uuid) (s : Store) → Yields (Shows pid s) (projection_view pid s)
unfolding projection_view
projection_view-Shows pid s = Yields-ok_or (find_record pid s) _ _ λ row found.
    Yields-bind (not_nil row.network_id) _ λ _ _. Yields-bind (not_nil row.device_id) _ λ _ _.
      Yields-bind (Submission.generation _) _ λ g h1.
        Yields-bind (Submission.generation _) _ λ bg h2. Yields-bind (new_binding _ _ _) _ λ b h3.
          Yields-ok _ (record {
            row = row;
            found = found;
            projection_id = refl;
            network_id = refl;
            device_id = refl;
            generation = (generation-same _).at g h1;
            desired_body = refl;
            desired_hash = refl;
            binding = (new_binding-same _ _ ((generation-same _).at bg h2)).at b h3;
            revision = refl;
            state = refl;
          })

-- A view reads only the records.
pub Shows-records :
    (pid : Uuid) (s t : Store) (view : N7ProjectionView)
    → t.records ≡ s.records
    → Shows pid s view
    → Shows pid t view
Shows-records pid s t view e h = record {
  row = h.row;
  found = rw e h.found;
  projection_id = h.projection_id;
  network_id = h.network_id;
  device_id = h.device_id;
  generation = h.generation;
  desired_body = h.desired_body;
  desired_hash = h.desired_hash;
  binding = h.binding;
  revision = h.revision;
  state = h.state;
}
