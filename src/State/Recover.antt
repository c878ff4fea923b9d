-- ===== src/State/Recover.antt =====
-- crates/nodescale-state/src/n7.rs: `recover_n7_projection_from_inspection`. SHA-256 is a
-- parameter.
use hermes_nodescale.Prelude.{
  ℕ, Bool, false, ◌&&◌, ◌||◌, not, List, ◌∷◌, Option, none, some, ok, err, ◌>>=◌, ◌>>◌, fail_if,
  ltb, ◌==◌, if◌then◌else◌, any,
}
use hermes_nodescale.Text.{Text, text_eq}
use hermes_nodescale.Domain.Identifier.{Uuid}
use hermes_nodescale.Domain.Generation.{Generation}
use hermes_nodescale.Domain.Lifecycle.Projection.{ProjectionStatus}
use hermes_nodescale.State.Tables.{update_where, latest}
use hermes_nodescale.State.Submission.{
  Stored, sqlite, conflict, sha256_fingerprint, N7AuthoritativeInspection, observed, missing,
  unavailable,
}
use hermes_nodescale.State.Rows.{
  Time, desired, attempted, applied, conflicted, N7ProjectionState, ProjectionRow, AttemptRow,
  InspectionRow, AuditEvent, projection_applied, projection_conflict, Store, transactional,
  N7ProjectionView, projection_view, operation_projection, current_attempt_id, append_audit,
}
use hermes_nodescale.State.Device.{set_device_status}
use hermes_nodescale.State.Attempt.{stale_revision, fenced, claimed}

-- The arguments of the operation, beside the store.
pub record RecoverRequest : Type 0 where
  pub operation_id : Text
  pub device_id : Uuid
  pub generation : Generation
  pub expected_revision : ℕ
  pub inspection : N7AuthoritativeInspection
  pub now : Time

abbrev pub is_attempt : Uuid → Uuid → Text → AttemptRow → Bool
is_attempt attempt_id projection_id operation_id a =
    a.attempt_id == attempt_id
    && a.projection_id == projection_id
    && text_eq a.operation_id operation_id

-- The INSERT of an inspection. Its trigger wants the current attempt to be one of the same
-- operation.
unfoldable pub insert_inspection : InspectionRow → Store → Stored Store
insert_inspection row s = do
  fail_if (not (any (is_attempt row.attempt_id row.projection_id row.operation_id) s.attempts))
      (sqlite "N7 inspection requires the exact attempted operation and revision")
  ok (record s { inspections = row ∷ s.inspections })

abbrev pub body_of : Option InspectionRow → Stored (List ℕ)
body_of none = err (sqlite "QueryReturnedNoRows")
body_of (some row) = elim row.inspection [
  | observed body hash ↦ ok body
  | _ ↦ err (sqlite "InvalidColumnType")
]

abbrev pub of_attempt : Uuid → Uuid → InspectionRow → Bool
of_attempt projection_id attempt_id i =
    i.projection_id == projection_id && i.attempt_id == attempt_id

-- The body that the attempt's latest inspection observed.
unfoldable pub latest_body : Uuid → Uuid → Store → Stored (List ℕ)
latest_body projection_id attempt_id s = body_of (
    latest (of_attempt projection_id attempt_id) (λ (i : InspectionRow). i.inspected_at)
      s.inspections)

-- What the comparison of the bodies decides.
pub data Verdict : Type 0 where
  agrees disagrees : Verdict

abbrev pub settled_state : Verdict → N7ProjectionState
settled_state agrees = applied
settled_state disagrees = conflicted

abbrev settled_status : Verdict → ProjectionStatus
settled_status agrees = ProjectionStatus.applied
settled_status disagrees = ProjectionStatus.conflict

abbrev settled_event : Verdict → AuditEvent
settled_event agrees = projection_applied
settled_event disagrees = projection_conflict

-- The UPDATE of the projection, with the column of its new state.
abbrev pub settle : Verdict → Time → ProjectionRow → ProjectionRow
settle agrees now r = record r { state = applied; revision = 3; applied_at = some now }
settle disagrees now r = record r { state = conflicted; revision = 3; conflict_at = some now }

-- Whether an observed body and digest are as the verdict says of the projection.
abbrev supports : Verdict → ProjectionRow → N7AuthoritativeInspection → Bool
supports verdict r missing = false
supports verdict r unavailable = false
supports agrees r (observed body hash) = text_eq body r.desired_body && text_eq hash r.desired_hash
supports disagrees r (observed body hash) =
    not (text_eq body r.desired_body) || not (text_eq hash r.desired_hash)

-- An inspection of the projection's current attempt, by the attempt's operation and at the
-- projection's revision, that supports the verdict.
abbrev pub is_evidence : Verdict → ProjectionRow → List AttemptRow → InspectionRow → Bool
is_evidence verdict r attempts i =
    i.projection_id == r.projection_id
    && elim r.current_attempt_id [ none ↦ false | some a ↦ i.attempt_id == a ]
    && any
        (λ (a : AttemptRow). a.attempt_id == i.attempt_id && text_eq a.operation_id i.operation_id)
        attempts
    && i.expected_revision == r.revision
    && supports verdict r i.inspection

-- The time of the new state may not be before persisted_at_ms, and the trigger
-- n7_projection_record_transition_guard wants evidence of it.
unfoldable pub settle_projection : Verdict → Uuid → ℕ → Time → Store → Stored Store
settle_projection verdict projection_id revision now s = do
  let claim = fenced projection_id attempted revision
  fail_if
      (any
        (λ (r : ProjectionRow).
          claim r && not (any (is_evidence verdict r s.attempts) s.inspections))
        s.records)
      (sqlite "N7 projection transition requires exact durable identity")
  fail_if (any (λ (r : ProjectionRow). claim r && ltb now r.persisted_at) s.records)
      (sqlite "CHECK")
  claimed projection_id attempted revision s
  ok (record s { records = update_where claim (settle verdict now) s.records })

module _ (sha256 : List ℕ → List ℕ) where
  unfoldable pub judge : N7ProjectionView → List ℕ → Verdict
  judge view body =
      if text_eq (sha256_fingerprint sha256 body) view.desired_hash
        && text_eq body view.desired_body
      then agrees
      else disagrees

  -- The writes that follow the verdict.
  unfoldable pub conclude_recovery :
      Verdict → N7ProjectionView → RecoverRequest → Store → Stored (N7ProjectionView × Store)
  conclude_recovery verdict view q s = do
    s1 ← settle_projection verdict view.projection_id q.expected_revision q.now s
    s2 ← set_device_status q.device_id (settled_status verdict) q.now s1
    let audited =
        append_audit
          (record {
            projection_id = view.projection_id;
            operation_id = q.operation_id;
            network_id = view.network_id;
            device_id = q.device_id;
            event_kind = settled_event verdict;
            generation = q.generation;
            revision = 3;
            recorded_at = q.now;
          })
          s2
    after ← projection_view view.projection_id audited
    ok (after, audited)

  unfoldable pub recover_by_kind :
      N7AuthoritativeInspection
      → N7ProjectionView
      → Uuid
      → RecoverRequest
      → Store
      → Stored (N7ProjectionView × Store)
  recover_by_kind missing view attempt_id q s = ok (view, s)
  recover_by_kind unavailable view attempt_id q s = ok (view, s)
  recover_by_kind (observed _ _) view attempt_id q s = do
    body ← latest_body view.projection_id attempt_id s
    conclude_recovery (judge view body) view q s

  unfoldable pub recover_by_state :
      N7ProjectionState
      → N7ProjectionView
      → RecoverRequest
      → Store
      → Stored (N7ProjectionView × Store)
  recover_by_state applied view q s = ok (view, s)
  recover_by_state conflicted view q s = ok (view, s)
  recover_by_state desired view q s =
      err (conflict "N7 inspection recovery requires a persisted dispatch attempt")
  recover_by_state attempted view q s = do
    attempt_id ← current_attempt_id view.projection_id s
    s1 ←
        insert_inspection
          (record {
            projection_id = view.projection_id;
            operation_id = q.operation_id;
            attempt_id = attempt_id;
            expected_revision = q.expected_revision;
            inspection = q.inspection;
            inspected_at = q.now;
          })
          s
    recover_by_kind q.inspection view attempt_id q s1

  unfoldable pub recover_in : RecoverRequest → Store → Stored (N7ProjectionView × Store)
  recover_in q s = do
    projection_id ← operation_projection q.operation_id q.device_id q.generation s
    view ← projection_view projection_id s
    fail_if (not (view.revision == q.expected_revision))
        (stale_revision q.expected_revision view.revision)
    recover_by_state view.state view q s

  -- `recover_n7_projection_from_inspection`
  unfoldable pub recover_from_inspection : RecoverRequest → Store → Stored N7ProjectionView × Store
  recover_from_inspection q = transactional (recover_in q)
