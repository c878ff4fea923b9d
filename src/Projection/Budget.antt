-- ===== src/Projection/Budget.antt =====
-- crates/nodescale-projection/src/lib.rs: how much a reconciliation may send to Fleet.
use hermes_nodescale.Prelude.{ℕ, ◌+◌, ◌*◌, Bool, true, false, List, arith, if◌then◌else◌}
use hermes_nodescale.Text.{Text}
use hermes_nodescale.Json.{SerdeJson}
use hermes_nodescale.Domain.Identifier.{UuidCrate}
use hermes_nodescale.Domain.Fleet.Content.{N7FleetDesiredProjection}
use hermes_nodescale.State.Submission.{N7AuthoritativeInspection, missing, unavailable, observed}
use hermes_nodescale.State.Rows.{
  desired, attempted, applied, conflicted, N7ProjectionState, N7ProjectionView,
}
use hermes_nodescale.State.Reserve.{ReservationOutcome, reserved, replayed}
use hermes_nodescale.Projection.Run.{Surroundings, Run}
use hermes_nodescale.Projection.Run.Sends.{
  Sends, Sends-return, Sends-fail, Sends-lift, Sends-on_store, Sends-if, Sends-request, Sends-bind,
}
use hermes_nodescale.Projection.Reconcile.{
  N7ProjectionOutcome, settled_outcome, Task, attempt, dispatch, recover, read_back, retry,
  recover_after_retry, by_inspection, inspect_and_recover, first_dispatch, by_attempted_state,
  first_attempt, by_reserved_state, after_reservation, reconcile_document, reconcile_one,
  ensure_capabilities,
}

module _ (crate : UuidCrate) (json : SerdeJson) (sha256 : List ℕ → List ℕ) (env : Surroundings)
    (k : Task) where
  read_back-Sends : Sends 0 1 (read_back crate json sha256 env k)
  unfolding read_back
  read_back-Sends = Sends-bind 0 0 1 0 _ _ (Sends-request _ _) λ answer. Sends-lift 0 0 _

  dispatch-Sends : Sends 1 1 (dispatch crate json sha256 env k)
  unfolding dispatch
  dispatch-Sends = Sends-bind 1 0 1 0 _ _ (Sends-request _ _) λ answer. Sends-return 0 0 _

  attempt-Sends : (revision : ℕ) → Sends 0 0 (attempt crate json sha256 env k revision)
  unfolding attempt
  attempt-Sends revision = Sends-on_store 0 0 env _

  recover-Sends :
      (revision : ℕ) (i : N7AuthoritativeInspection)
      → Sends 0 0 (recover crate json sha256 env k revision i)
  unfolding recover
  recover-Sends revision i = Sends-on_store 0 0 env _

  settled-Sends :
      (a n : ℕ) (st : N7ProjectionState) (other : Run N7ProjectionOutcome)
      → Sends a n other
      → Sends a n (settled_outcome crate json sha256 env st other)
  settled-Sends a n applied other h = Sends-return a n _
  settled-Sends a n conflicted other h = Sends-return a n _
  settled-Sends a n desired other h = h
  settled-Sends a n attempted other h = h

  recover_after_retry-Sends :
      (revision : ℕ) → Sends 0 1 (recover_after_retry crate json sha256 env k revision)
  unfolding recover_after_retry
  recover_after_retry-Sends revision = Sends-bind 0 0 1 0 _ _ read_back-Sends λ i.
      Sends-bind 0 0 0 0 _ _ (recover-Sends _ i)
        λ view. settled-Sends 0 0 view.state _ (Sends-return 0 0 _)

  retry-Sends : (revision : ℕ) → Sends 1 2 (retry crate json sha256 env k revision)
  unfolding retry
  retry-Sends revision = Sends-bind 0 1 0 2 _ _ (attempt-Sends revision) λ outcome.
      Sends-if 1 2 _ _ _ (Sends-fail 1 2 _) (
        Sends-bind 1 0 1 1 _ _ dispatch-Sends
          λ reached. Sends-if 0 1 reached _ _ (recover_after_retry-Sends _) (Sends-return 0 1 _))

  -- Only a permitted retry sends an apply request.
  abbrev retries : Bool → ℕ
  retries allowed = if allowed then 1 else 0

  by_inspection-Sends :
      (revision : ℕ) (allowed : Bool) (i : N7AuthoritativeInspection)
      → Sends
          (retries allowed)
          (retries allowed * 2)
          (by_inspection crate json sha256 env k revision allowed i)
  unfolding by_inspection
  by_inspection-Sends revision true unavailable = Sends-return 1 2 _
  by_inspection-Sends revision false unavailable = Sends-return 0 0 _
  by_inspection-Sends revision true missing = retry-Sends revision
  by_inspection-Sends revision false missing = Sends-return 0 0 _
  by_inspection-Sends revision true (observed _ _) = Sends-return 1 2 _
  by_inspection-Sends revision false (observed _ _) = Sends-return 0 0 _

  inspect_and_recover-Sends :
      (view : N7ProjectionView) (allowed : Bool)
      → Sends
          (retries allowed)
          (1 + retries allowed * 2)
          (inspect_and_recover crate json sha256 env k view allowed)
  unfolding inspect_and_recover
  inspect_and_recover-Sends view true = Sends-bind 0 1 1 2 _ _ read_back-Sends λ i.
      Sends-bind 0 1 0 2 _ _ (recover-Sends _ i)
        λ recovered. settled-Sends 1 2 recovered.state _ (by_inspection-Sends _ true i)
  inspect_and_recover-Sends view false = Sends-bind 0 0 1 0 _ _ read_back-Sends λ i.
      Sends-bind 0 0 0 0 _ _ (recover-Sends _ i)
        λ recovered. settled-Sends 0 0 recovered.state _ (by_inspection-Sends _ false i)

  by_attempted_state-Sends :
      (st : N7ProjectionState) (view : N7ProjectionView)
      → Sends 1 2 (by_attempted_state crate json sha256 env st k view)
  unfolding by_attempted_state first_dispatch
  by_attempted_state-Sends applied view = Sends-return 1 2 _
  by_attempted_state-Sends conflicted view = Sends-return 1 2 _
  by_attempted_state-Sends desired view = Sends-fail 1 2 _
  by_attempted_state-Sends attempted view = Sends-bind 1 0 1 1 _ _ dispatch-Sends λ reached.
      Sends-if 0 1 reached _ _ (inspect_and_recover-Sends view false) (Sends-return 0 1 _)

  first_attempt-Sends :
      (view : N7ProjectionView) → Sends 1 2 (first_attempt crate json sha256 env k view)
  unfolding first_attempt
  first_attempt-Sends view =
      Sends-bind 0 1 0 2 _ _ (attempt-Sends _) λ outcome. by_attempted_state-Sends _ _

  capabilities-Sends : Sends 0 1 (ensure_capabilities env)
  unfolding ensure_capabilities
  capabilities-Sends = Sends-bind 0 0 1 0 _ _ (Sends-request _ _) λ answer.
      Sends-bind 0 0 0 0 _ _ (Sends-lift 0 0 _)
        λ supported. Sends-if 0 0 supported _ _ (Sends-return 0 0 _) (Sends-fail 0 0 _)

  by_reserved_state-Sends :
      (st : N7ProjectionState) (view : N7ProjectionView)
      → Sends 1 4 (by_reserved_state crate json sha256 env st k view)
  unfolding by_reserved_state
  by_reserved_state-Sends applied view = Sends-return 1 4 _
  by_reserved_state-Sends conflicted view = Sends-return 1 4 _
  by_reserved_state-Sends desired view =
      let m = Sends-bind 0 1 1 2 _ _ capabilities-Sends λ _. first_attempt-Sends view in
      record { applied = m.applied; total = λ w. omega (arith, m.total w) }
  by_reserved_state-Sends attempted view =
      Sends-bind 0 1 1 3 _ _ capabilities-Sends λ _. inspect_and_recover-Sends view true

  after_reservation-Sends :
      (outcome : ReservationOutcome) → Sends 1 4 (after_reservation crate json sha256 env k outcome)
  unfolding after_reservation
  after_reservation-Sends ReservationOutcome.conflict = Sends-return 1 4 _
  after_reservation-Sends (reserved view) = by_reserved_state-Sends _ _
  after_reservation-Sends (replayed view) = by_reserved_state-Sends _ _

-- Whatever Fleet answers, a reconciliation ends after at most four requests, of which at most one
-- is an apply.
pub one_apply :
    (crate : UuidCrate) (json : SerdeJson) (sha256 : List ℕ → List ℕ) (env : Surroundings)
    (operation_id : Text) (p : N7FleetDesiredProjection)
    → Sends 1 4 (reconcile_one crate json sha256 env operation_id p)
unfolding reconcile_one reconcile_document
one_apply crate json sha256 env operation_id p =
    Sends-bind 0 1 0 4 _ _ (Sends-lift 0 0 _) λ document.
      Sends-bind 0 1 0 4 _ _ (Sends-lift 0 0 _) λ submission.
        Sends-bind 0 1 0 4 _ _ (Sends-on_store 0 0 env _) λ outcome.
          after_reservation-Sends crate json sha256 env
            (record { operation_id = operation_id; desired = p; document = document }) outcome
