-- ===== src/Projection/Reconcile.antt =====
-- crates/nodescale-projection/src/lib.rs: `reconcile_one` and the functions it calls.
use hermes_nodescale.Prelude.{
  ℕ, Bool, true, false, ◌&&◌, not, List, Option, none, some, Result, ok, err, any, if◌then◌else◌,
}
use hermes_nodescale.Text.{Text}
use hermes_nodescale.Json.{SerdeJson}
use hermes_nodescale.FleetClient.{
  RequestKind, capabilities, apply, inspect, ProjectionDocument, ApplyOutcome, ApplyError,
  rejected_before_send, ambiguous, GeneratedState, FleetClientError,
}
use hermes_nodescale.Domain.Identifier.{UuidCrate}
use hermes_nodescale.Domain.Fleet.Content.{N7FleetDesiredProjection}
use hermes_nodescale.State.Submission.{
  N7ProjectionSubmission, N7AuthoritativeInspection, missing, unavailable, observed, from_canonical,
  new_observed,
}
use hermes_nodescale.State.Rows.{
  N7ProjectionView, desired, attempted, conflicted, N7ProjectionState, state_eq,
}
use hermes_nodescale.State.Reserve.{reserve_n7_projection, ReservationOutcome, reserved, replayed}
use hermes_nodescale.State.Attempt.{record_attempt, AttemptOutcome, outcome_view}
use hermes_nodescale.State.Recover.{recover_from_inspection}
use hermes_nodescale.Projection.Document.{
  unsupported_fleet, state_text, Produced, state_error, projection_document,
  expected_generated_body, generated_body,
}
use hermes_nodescale.Projection.Run.{
  Surroundings, Run, ask_capabilities, send_apply, ask_inspect, return, fail, lift, on_store,
  request, ◌>>=◌, ◌>>◌,
}

pub data N7ProjectionOutcome : Type 0 where
  applied already_applied retryable conflict : N7ProjectionOutcome

abbrev pub is_kind : RequestKind → RequestKind → Bool
is_kind capabilities capabilities = true
is_kind apply apply = true
is_kind inspect inspect = true
is_kind _ _ = false

-- Whether Fleet may have seen the request.
abbrev pub may_have_reached : Result ApplyError ApplyOutcome → Bool
may_have_reached (ok _) = true
may_have_reached (err ambiguous) = true
may_have_reached (err ApplyError.protocol_rejected) = true
may_have_reached (err ApplyError.unavailable) = false
may_have_reached (err rejected_before_send) = false

abbrev complete : Result FleetClientError (List RequestKind) → Produced Bool
complete (ok kinds) =
    ok
      (any (is_kind capabilities) kinds && any (is_kind apply) kinds && any (is_kind inspect) kinds)
complete (err _) = err (state_text "Fleet capabilities")

module _ (env : Surroundings) where
  unfoldable pub ensure_capabilities : Run (Unit {0})
  ensure_capabilities = do
    answer ← request ask_capabilities env.capabilities
    supported ← lift (complete answer)
    if supported then return tt else fail unsupported_fleet

module _ (json : SerdeJson) (sha256 : List ℕ → List ℕ) where
  -- `inspection_from_result`, and the answer of a failed request
  unfoldable pub inspection_of :
      Result FleetClientError (Option GeneratedState) → Produced N7AuthoritativeInspection
  inspection_of (ok none) = ok missing
  inspection_of (ok (some g)) = state_error (new_observed json sha256 (generated_body json g))
  inspection_of (err _) = ok unavailable

-- What the functions below share: the operation, the desired projection and its document.
pub record Task : Type 0 where
  pub operation_id : Text
  pub desired : N7FleetDesiredProjection
  pub document : ProjectionDocument

module _ (crate : UuidCrate) (json : SerdeJson) (sha256 : List ℕ → List ℕ)
    (env : Surroundings) where
  unfoldable pub read_back : Task → Run N7AuthoritativeInspection
  read_back k = do
    let network_id = crate.to_string k.desired.network_id
    let device_id = crate.to_string k.desired.device_id
    answer ← request (ask_inspect network_id device_id) (λ n. env.inspect n network_id device_id)
    lift (inspection_of json sha256 answer)

  unfoldable pub recover : Task → ℕ → N7AuthoritativeInspection → Run N7ProjectionView
  recover k revision inspection = on_store env λ now _. recover_from_inspection sha256 (record {
    operation_id = k.operation_id;
    device_id = k.desired.device_id;
    generation = k.desired.projection_generation;
    expected_revision = revision;
    inspection = inspection;
    now = now;
  })

  unfoldable pub attempt : Task → ℕ → Run AttemptOutcome
  attempt k revision = on_store env λ now fresh. record_attempt (record {
    operation_id = k.operation_id;
    device_id = k.desired.device_id;
    generation = k.desired.projection_generation;
    expected_revision = revision;
    attempt_id = fresh;
    now = now;
  })

  unfoldable pub dispatch : Task → Run Bool
  dispatch k = do
    answer ← request (send_apply k.document) (λ n. env.apply n k.document)
    return (may_have_reached answer)

  -- The outcome of a settled record.
  abbrev pub settled_outcome : N7ProjectionState → Run N7ProjectionOutcome → Run N7ProjectionOutcome
  settled_outcome N7ProjectionState.applied open_case = return applied
  settled_outcome conflicted open_case = return conflict
  settled_outcome desired open_case = open_case
  settled_outcome attempted open_case = open_case

  -- The read-back after a retry.
  unfoldable pub recover_after_retry : Task → ℕ → Run N7ProjectionOutcome
  recover_after_retry k revision = do
    inspection ← read_back k
    post ← recover k revision inspection
    settled_outcome post.state (return retryable)

  -- Fleet has no such projection: one new attempt and one apply.
  unfoldable pub retry : Task → ℕ → Run N7ProjectionOutcome
  retry k revision = do
    outcome ← attempt k revision
    let view = outcome_view outcome
    if not (state_eq view.state attempted)
        then fail (state_text "N7 retry attempt was not durable before apply")
        else do
          reached ← dispatch k
          if reached then recover_after_retry k view.revision else return retryable

  unfoldable pub by_inspection :
      Task → ℕ → Bool → N7AuthoritativeInspection → Run N7ProjectionOutcome
  by_inspection k revision allowed unavailable = return retryable
  by_inspection k revision allowed missing = if allowed then retry k revision else return retryable
  by_inspection k revision allowed (observed _ _) = return retryable

  unfoldable pub inspect_and_recover : Task → N7ProjectionView → Bool → Run N7ProjectionOutcome
  inspect_and_recover k view retry_dispatch_allowed = do
    inspection ← read_back k
    recovered ← recover k view.revision inspection
    settled_outcome recovered.state
        (by_inspection k recovered.revision retry_dispatch_allowed inspection)

  -- A first apply, behind an attempt that is durable.
  unfoldable pub first_dispatch : Task → N7ProjectionView → Run N7ProjectionOutcome
  first_dispatch k view = do
    reached ← dispatch k
    if reached then inspect_and_recover k view false else return retryable

  unfoldable pub by_attempted_state :
      N7ProjectionState → Task → N7ProjectionView → Run N7ProjectionOutcome
  by_attempted_state N7ProjectionState.applied k view = return already_applied
  by_attempted_state conflicted k view = return conflict
  by_attempted_state desired k view = fail (state_text "N7 attempt was not durable before apply")
  by_attempted_state attempted k view = first_dispatch k view

  unfoldable pub first_attempt : Task → N7ProjectionView → Run N7ProjectionOutcome
  first_attempt k view = do
    outcome ← attempt k view.revision
    by_attempted_state (outcome_view outcome).state k (outcome_view outcome)

  unfoldable pub by_reserved_state :
      N7ProjectionState → Task → N7ProjectionView → Run N7ProjectionOutcome
  by_reserved_state N7ProjectionState.applied k view = return already_applied
  by_reserved_state conflicted k view = return conflict
  by_reserved_state desired k view = ensure_capabilities env >> first_attempt k view
  by_reserved_state attempted k view = ensure_capabilities env >> inspect_and_recover k view true

  unfoldable pub after_reservation : Task → ReservationOutcome → Run N7ProjectionOutcome
  after_reservation k ReservationOutcome.conflict = return conflict
  after_reservation k (reserved view) = by_reserved_state view.state k view
  after_reservation k (replayed view) = by_reserved_state view.state k view

  unfoldable pub submission_of :
      Text → N7FleetDesiredProjection → List ℕ → Produced N7ProjectionSubmission
  submission_of operation_id p body = state_error (
      from_canonical json sha256 operation_id p.network_id p.device_id p.projection_generation body
        (crate.to_string p.binding_provenance.binding_id) p.binding_provenance.authenticated_peer_id
        p.binding_provenance.binding_generation)

  -- The rest, once the document is made.
  unfoldable pub reconcile_document :
      Text → N7FleetDesiredProjection → ProjectionDocument → Run N7ProjectionOutcome
  reconcile_document operation_id p document = do
    let body = expected_generated_body json document p.enrollment_state
    submission ← lift (submission_of operation_id p body)
    outcome ← on_store env λ now fresh. reserve_n7_projection fresh submission now
    after_reservation (record { operation_id = operation_id; desired = p; document = document })
        outcome

  unfoldable pub reconcile_one : Text → N7FleetDesiredProjection → Run N7ProjectionOutcome
  reconcile_one operation_id p = do
    document ← lift (projection_document crate sha256 p)
    reconcile_document operation_id p document
