-- ===== src/Projection/Safety.antt =====
-- crates/nodescale-projection/src/lib.rs: what it means that no apply request is sent without a
-- durable attempt, and that no success is reported without a record that says so. `Steps` proves it
-- of the driver's calls, `Branches` of its branches, and `Reconcile` of the whole.
mod Steps
mod Branches
pub mod Reconcile
use mathlib.Core.Path.{subst}
use hermes_nodescale.Prelude.{
  ℕ, ◌≡◌, refl, sym, ap, ◌∙◌, ◌⊎◌, inl, inr, Bool, true, false, not, List, [], ◌∷◌, Option, none,
  some, ok, err, arith, if◌then◌else◌,
}
use hermes_nodescale.Text.{Text}
use hermes_nodescale.Json.{SerdeJson}
use hermes_nodescale.FleetClient.{ProjectionDocument}
use hermes_nodescale.Domain.Identifier.{Uuid, UuidCrate}
use hermes_nodescale.Domain.Generation.{Generation}
use hermes_nodescale.Domain.Fleet.Content.{N7FleetDesiredProjection}
use hermes_nodescale.State.Rows.{
  Store, desired, attempted, applied, conflicted, N7ProjectionState, state_eq, ProjectionRow,
  find_record, operation_projection, N7ProjectionView, projection_view,
}
use hermes_nodescale.State.Submission.{
  Stored, StateError, N7ProjectionSubmission, N7AuthoritativeInspection, missing, unavailable,
  observed,
}
use hermes_nodescale.State.Reserve.{
  reserve_n7_projection, reserve_in, ReservationOutcome, reserved, replayed,
}
use hermes_nodescale.State.Attempt.{
  AttemptRequest, AttemptOutcome, outcome_view, record_attempt, attempt_in,
}
use hermes_nodescale.State.Recover.{RecoverRequest, recover_from_inspection, recover_in}
use hermes_nodescale.State.History.Named.{Names}
use hermes_nodescale.State.Yields.{Yields}
use hermes_nodescale.State.Transaction.{outcome-cases, transactional-fails, transactional-returns}
use hermes_nodescale.State.Replay.{outcome_of}
use hermes_nodescale.State.Effects.{Shows}
use hermes_nodescale.State.Effects.Attempt.{attempt_in-effect}
use hermes_nodescale.State.Effects.Recover.{recover_in-effect}
use hermes_nodescale.State.Effects.Operations.{attempt_in-operations}
use hermes_nodescale.Projection.Document.{
  N7ProductionError, Produced, state_error, projection_document, expected_generated_body,
}
use hermes_nodescale.Projection.Run.{
  Request, send_apply, ask_capabilities, ask_inspect, Event, World, Surroundings, Run, on_store,
  return, fail, ◌>>=◌,
}
use hermes_nodescale.Projection.Run.Hoare.{
  Ends, Ensures, Ensures-return, Ensures-fail, Ensures-lift, Ensures-transaction, Ensures-request,
  Ensures-if, Ensures-bind, Ensures-before, Ensures-known,
}
use hermes_nodescale.Projection.Reconcile.{
  N7ProjectionOutcome, already_applied, retryable, settled_outcome, Task, attempt, dispatch,
  recover, read_back, retry, recover_after_retry, by_inspection, inspect_and_recover,
  first_dispatch, by_attempted_state, first_attempt, by_reserved_state, after_reservation,
  reconcile_document, reconcile_one, ensure_capabilities,
}

-- The store holds the task's projection as attempted.
abbrev pub HasAttempt : Task → Store → Type 0
HasAttempt k s =
    (pid : Uuid) × (row : ProjectionRow) × (operation_projection k.operation_id k.desired.device_id
        k.desired.projection_generation s
      ≡ ok pid)
    × (find_record pid s ≡ some row)
    × (row.state ≡ attempted)

-- An apply request carries the task's document, and the store held the attempt when it was sent.
abbrev pub IsBacked : Task → Request → Store → Type 0
IsBacked k (send_apply document) s = (document ≡ k.document) × HasAttempt k s
IsBacked k ask_capabilities s = Unit
IsBacked k (ask_inspect _ _) s = Unit

abbrev pub AllBacked : Task → List Event → Type 0
AllBacked k [] = Unit
AllBacked k (e ∷ es) = IsBacked k e.request e.durable × AllBacked k es

-- The projection is the task's: its network, its device, its generation and the body that Fleet is
-- expected to show for its document.
abbrev pub IsExpected : SerdeJson → Task → ProjectionRow → Type 0
IsExpected json k row =
    (row.network_id ≡ k.desired.network_id)
    × (row.device_id ≡ k.desired.device_id)
    × (row.generation ≡ k.desired.projection_generation)
    × (row.desired_body ≡ expected_generated_body json k.document k.desired.enrollment_state)

-- The task's operation names the task's projection, and it is applied.
abbrev pub HasApplied : SerdeJson → Task → Store → Type 0
HasApplied json k s =
    (pid : Uuid) × (row : ProjectionRow) × (operation_projection k.operation_id k.desired.device_id
        k.desired.projection_generation s
      ≡ ok pid)
    × (find_record pid s ≡ some row)
    × IsExpected json k row
    × (row.state ≡ applied)

-- The submission is the task's.
abbrev pub Fits : SerdeJson → Task → N7ProjectionSubmission → Type 0
Fits json k q =
    (q.operation_id ≡ k.operation_id)
    × (q.network_id ≡ k.desired.network_id)
    × (q.device_id ≡ k.desired.device_id)
    × (q.generation ≡ k.desired.projection_generation)
    × (q.desired_body ≡ expected_generated_body json k.document k.desired.enrollment_state)

-- The task's submission is reserved.
abbrev pub Holds : SerdeJson → Task → Store → Type 0
Holds json k s = (q : N7ProjectionSubmission) × Fits json k q × Names q s

abbrev pub is_success : N7ProjectionOutcome → Bool
is_success N7ProjectionOutcome.applied = true
is_success already_applied = true
is_success retryable = false
is_success N7ProjectionOutcome.conflict = false

-- `Linked` says that the store was linked at the start; without it only the requests are judged.
module _ (json : SerdeJson) (k : Task) (Linked : Type 0) where
  abbrev pub Backed : World → Type 0
  Backed w = AllBacked k w.trace × (Linked → Holds json k w.store)

  abbrev pub Honest : N7ProjectionOutcome → World → Type 0
  Honest outcome w = Backed w × (is_success outcome ≡ true → Linked → HasApplied json k w.store)

  -- What an attempt leaves behind.
  abbrev pub Attempts : AttemptOutcome → World → Type 0
  Attempts outcome w =
      Backed w
      × ((outcome_view outcome).state ≡ attempted → HasAttempt k w.store)
      × ((outcome_view outcome).state ≡ applied → Linked → HasApplied json k w.store)

  -- What a recovery or a reservation that returns a view leaves behind.
  abbrev pub Recovers : N7ProjectionView → World → Type 0
  Recovers view w = Backed w × (view.state ≡ applied → Linked → HasApplied json k w.store)

  -- What a reservation leaves behind.
  abbrev pub Reserves : ReservationOutcome → World → Type 0
  Reserves outcome w =
      AllBacked k w.trace
      × ((view : N7ProjectionView) → outcome_of outcome ≡ some view → Recovers view w)

  -- What is known at the end, whether there was a reservation or not.
  abbrev pub Reports : N7ProjectionOutcome → World → Type 0
  Reports outcome w =
      AllBacked k w.trace × (is_success outcome ≡ true → Linked → HasApplied json k w.store)
