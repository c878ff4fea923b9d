-- ===== src/State/Rows.antt =====
-- crates/nodescale-state/src/n7.rs: the rows of the tables that a Fleet projection is kept in, and
-- the queries on them. A stored identifier is its value, as its text form is one to one. Of the
-- constraints of crates/nodescale-state/migrations/0007_fleet_projection.sql, the rows carry those
-- that the checks of the code do not already imply.
use hermes_nodescale.Prelude.{
  ℕ, ◌+◌, Bool, true, false, ◌&&◌, ◌||◌, not, List, ◌∷◌, Option, none, some, ok, err, ◌>>=◌, ◌>>◌,
  fail_if, ok_or, ◌==◌, is_some, if_let_some,
}
use hermes_nodescale.Text.{Text, text_eq}
use hermes_nodescale.Domain.Identifier.{Uuid}
use hermes_nodescale.Domain.Generation.{Generation, DeviceGenerations}
use hermes_nodescale.Domain.Lifecycle.Projection.{ProjectionStatus}
use hermes_nodescale.State.Tables.{find, greatest}
use hermes_nodescale.State.Submission.{
  Stored, conflict, not_found, N7BindingProvenance, N7ProjectionSubmission,
  N7AuthoritativeInspection, generation, new_binding,
}

-- A point in time, in milliseconds since 1970.
abbrev pub Time : Type 0
Time = ℕ

pub data N7ProjectionState : Type 0 where
  desired attempted applied conflicted : N7ProjectionState

abbrev pub N7ProjectionState-discrete : Discrete N7ProjectionState
N7ProjectionState-discrete = hlevel

abbrev pub state_eq : N7ProjectionState → N7ProjectionState → Bool
state_eq a b = elim (N7ProjectionState-discrete a b) [ yes _ ↦ true | no _ ↦ false ]

-- A row of n7_fleet_projection_records.
pub record ProjectionRow : Type 0 where
  pub projection_id : Uuid
  pub network_id : Uuid
  pub device_id : Uuid
  pub generation : Generation
  pub desired_body : List ℕ
  pub desired_hash : Text
  pub binding : N7BindingProvenance
  pub state : N7ProjectionState
  pub revision : ℕ
  pub current_attempt_id : Option Uuid
  pub persisted_at : Time
  pub attempted_at : Option Time
  pub applied_at : Option Time
  pub conflict_at : Option Time

-- A row of n7_fleet_projection_operations.
pub record OperationRow : Type 0 where
  pub projection_id : Uuid
  pub submission : N7ProjectionSubmission
  pub recorded_at : Time

-- A row of n7_fleet_projection_attempts.
pub record AttemptRow : Type 0 where
  pub attempt_id : Uuid
  pub projection_id : Uuid
  pub operation_id : Text
  pub attempt_number : ℕ
  pub expected_revision : ℕ
  pub attempted_at : Time

-- A row of n7_fleet_projection_inspections, its own key left out.
pub record InspectionRow : Type 0 where
  pub projection_id : Uuid
  pub operation_id : Text
  pub attempt_id : Uuid
  pub expected_revision : ℕ
  pub inspection : N7AuthoritativeInspection
  pub inspected_at : Time

pub data AuditEvent : Type 0 where
  projection_desired projection_attempted projection_applied projection_conflict : AuditEvent

-- A row of n7_fleet_projection_audit with the one of audit_events that it links.
pub record AuditRow : Type 0 where
  pub projection_id : Uuid
  pub operation_id : Text
  pub network_id : Uuid
  pub device_id : Uuid
  pub event_kind : AuditEvent
  pub generation : Generation
  pub revision : ℕ
  pub recorded_at : Time

-- What a projection reads of a row of n6_binding_records.
pub record BindingRow : Type 0 where
  pub binding_id : Text
  pub network_id : Uuid
  pub device_id : Uuid
  pub verified_peer_id : Option Text
  pub generation : Generation
  pub is_active : Bool

-- What a projection uses of the device that `devices.record_json` holds.
pub record DeviceDocument : Type 0 where
  pub generations : DeviceGenerations
  pub fleet_projection_status : ProjectionStatus
  pub updated_at : Time

-- A row of devices.
pub record DeviceRow : Type 0 where
  pub device_id : Uuid
  pub network_id : Uuid
  pub fleet_projection_generation : Generation
  pub fleet_projection_status : ProjectionStatus
  pub document : DeviceDocument

-- A row of device_generations, with the one generation that a projection uses.
pub record GenerationRow : Type 0 where
  pub device_id : Uuid
  pub fleet_projection_generation : Generation

pub record Store : Type 0 where
  pub records : List ProjectionRow
  pub operations : List OperationRow
  pub attempts : List AttemptRow
  pub inspections : List InspectionRow
  pub audit : List AuditRow
  pub bindings : List BindingRow
  pub devices : List DeviceRow
  pub device_generations : List GenerationRow

abbrev pub commit_or_abort : {A : Type 0} → Stored (A × Store) → Store → Stored A × Store
commit_or_abort (ok result) s = (ok result.0, result.1)
commit_or_abort (err e) s = (err e, s)

-- `transactional`: what an operation wrote is kept only if it returns Ok.
unfoldable pub transactional :
    {A : Type 0} → (Store → Stored (A × Store)) → Store → Stored A × Store
transactional operation s = commit_or_abort (operation s) s

abbrev pub binding_eq : N7BindingProvenance → N7BindingProvenance → Bool
binding_eq a b =
    text_eq a.binding_id b.binding_id
    && text_eq a.authenticated_peer_id b.authenticated_peer_id
    && a.binding_generation == b.binding_generation

-- The tuple of `n7_matching_operation_tx`.
abbrev pub submission_eq : N7ProjectionSubmission → N7ProjectionSubmission → Bool
submission_eq a b =
    text_eq a.operation_id b.operation_id
    && a.network_id == b.network_id
    && a.device_id == b.device_id
    && a.generation == b.generation
    && text_eq a.desired_body b.desired_body
    && text_eq a.desired_hash b.desired_hash
    && binding_eq a.binding b.binding

-- `n7_matching_operation_tx`
abbrev pub matching_operation : N7ProjectionSubmission → Store → Option OperationRow
matching_operation submission s =
    find (λ (o : OperationRow). submission_eq o.submission submission) s.operations

abbrev pub find_operation : Text → Store → Option OperationRow
find_operation operation_id s =
    find (λ (o : OperationRow). text_eq o.submission.operation_id operation_id) s.operations

-- `n7_operation_exists_tx`
abbrev pub operation_exists : Text → Store → Bool
operation_exists operation_id s = is_some (find_operation operation_id s)

-- `n7_insert_operation_tx`
abbrev pub insert_operation : Uuid → N7ProjectionSubmission → Time → Store → Store
insert_operation projection_id submission now s = record s {
  operations =
      record { projection_id = projection_id; submission = submission; recorded_at = now }
      ∷ s.operations;
}

abbrev verified_by : Option Text → Text → Bool
verified_by none peer = false
verified_by (some verified) peer = text_eq verified peer

-- `n7_binding_is_active_tx`
unfoldable pub binding_is_active : Uuid → Uuid → N7BindingProvenance → Store → Bool
binding_is_active network_id device_id binding s = is_some (
    find
      (λ (b : BindingRow).
        text_eq b.binding_id binding.binding_id
        && b.network_id == network_id
        && b.device_id == device_id
        && verified_by b.verified_peer_id binding.authenticated_peer_id
        && b.generation == binding.binding_generation
        && b.is_active)
      s.bindings)

-- `n7_operation_projection_tx`
unfoldable pub operation_projection : Text → Uuid → Generation → Store → Stored Uuid
operation_projection operation_id device_id g s = do
  o ← ok_or (find_operation operation_id s) (not_found "N7 operation")
  fail_if (not (o.submission.device_id == device_id) || not (o.submission.generation == g))
      (conflict "N7 operation provenance does not match projection")
  ok o.projection_id

abbrev pub has_id : Uuid → ProjectionRow → Bool
has_id projection_id r = r.projection_id == projection_id

abbrev pub find_record : Uuid → Store → Option ProjectionRow
find_record projection_id s = find (has_id projection_id) s.records

-- `N7ProjectionView`
pub record N7ProjectionView : Type 0 where
  pub projection_id : Uuid
  pub network_id : Uuid
  pub device_id : Uuid
  pub generation : Generation
  pub desired_body : List ℕ
  pub desired_hash : Text
  pub binding : N7BindingProvenance
  pub revision : ℕ
  pub state : N7ProjectionState

-- `NetworkId::parse` and `DeviceId::parse` of a stored text, which refuse the nil UUID.
unfoldable pub not_nil : Uuid → Stored (Unit {0})
not_nil u = fail_if (u == 0) (conflict "nil UUID is forbidden")

-- `n7_projection_view_tx`
unfoldable pub projection_view : Uuid → Store → Stored N7ProjectionView
unfolding not_nil generation new_binding
projection_view projection_id s = do
  r ← ok_or (find_record projection_id s) (not_found "N7 projection")
  not_nil r.network_id
  not_nil r.device_id
  g ← generation r.generation
  binding_generation ← generation r.binding.binding_generation
  binding ← new_binding r.binding.binding_id r.binding.authenticated_peer_id binding_generation
  ok (record {
    projection_id = projection_id;
    network_id = r.network_id;
    device_id = r.device_id;
    generation = g;
    desired_body = r.desired_body;
    desired_hash = r.desired_hash;
    binding = binding;
    revision = r.revision;
    state = r.state;
  })

-- `n7_next_attempt_number_tx`
unfoldable pub next_attempt_number : Uuid → Store → ℕ
next_attempt_number projection_id s =
    greatest (λ (a : AttemptRow). a.projection_id == projection_id)
      (λ (a : AttemptRow). a.attempt_number) s.attempts
    + 1

-- `n7_current_attempt_id_tx`
unfoldable pub current_attempt_id : Uuid → Store → Stored Uuid
current_attempt_id projection_id s =
    let absent = conflict "N7 attempted projection has no current durable attempt" in
    if_let_some (find_record projection_id s)
      (λ (r : ProjectionRow). ok_or r.current_attempt_id absent) (err absent)

-- `append_n7_projection_audit`
abbrev pub append_audit : AuditRow → Store → Store
append_audit row s = record s { audit = row ∷ s.audit }
