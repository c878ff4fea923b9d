-- ===== src/State/History/Named.antt =====
-- crates/nodescale-state/src/n7.rs: the projection that the operation of one submission names, from
-- its reservation on.
use mathlib.Core.Path.{subst}
use hermes_nodescale.Prelude.{ℕ, ◌≡◌, ap, true, some, List, ok, arith}
use hermes_nodescale.Text.Laws.{text_eq_iff}
use hermes_nodescale.Domain.Identifier.{Uuid}
use hermes_nodescale.State.Tables.Laws.{find-passes, find_unique}
use hermes_nodescale.State.Submission.{N7ProjectionSubmission}
use hermes_nodescale.State.Rows.{
  Time, Store, ProjectionRow, OperationRow, find_record, find_operation, submission_eq,
  matching_operation, operation_projection, N7ProjectionView, projection_view,
}
use hermes_nodescale.State.Reserve.{reserve_n7_projection, reserve_in}
use hermes_nodescale.State.Attempt.{AttemptRequest, record_attempt, attempt_in}
use hermes_nodescale.State.Recover.{RecoverRequest, recover_from_inspection, recover_in}
use hermes_nodescale.State.Transaction.{transactional-returns}
use hermes_nodescale.State.Yields.{Yields}
use hermes_nodescale.State.Effects.Recorded.{IsOf, binding_eq-same}
use hermes_nodescale.State.Effects.Operations.{attempt_in-operations, recover_in-operations}
use hermes_nodescale.State.Replay.{outcome_of, reserve_in-recorded}
use hermes_nodescale.State.History.{Command, reserve, attempt, recover, exec}
use hermes_nodescale.State.History.Links.{IsLinked, has_operation, still_asked, exec-IsLinked}

submission_eq-same : (a b : N7ProjectionSubmission) → submission_eq a b ≡ true → a ≡ b
submission_eq-same a b h = ground (
  arith,
  text_eq_iff a.operation_id b.operation_id,
  text_eq_iff a.desired_body b.desired_body,
  text_eq_iff a.desired_hash b.desired_hash,
  binding_eq-same a.binding b.binding,
)

-- An operation that matches is the one that its identifier finds.
match_named :
    (q : N7ProjectionSubmission) (s : Store) (o : OperationRow)
    → IsLinked s
    → matching_operation q s ≡ some o
    → find_operation q.operation_id s ≡ some o
match_named q s o h found =
    let matched =
      find-passes (λ (x : OperationRow). submission_eq x.submission q) s.operations o found in
    find_unique (has_operation q.operation_id) (λ (x : OperationRow). submission_eq x.submission q)
      s.operations o found (ground (arith, matched)) (h.named q.operation_id)

-- The operation names a projection that the submission asks for.
abbrev pub Names : N7ProjectionSubmission → Store → Type 0
Names q s =
    (pid : Uuid) × (row : ProjectionRow) × (operation_projection q.operation_id q.device_id
        q.generation s
      ≡ ok pid)
    × (find_record pid s ≡ some row)
    × IsOf q row

matched_names :
    (q : N7ProjectionSubmission) (s : Store) (o : OperationRow)
    → IsLinked s
    → matching_operation q s ≡ some o
    → (row : ProjectionRow) × (operation_projection q.operation_id q.device_id q.generation s
        ≡ ok o.projection_id)
      × (find_record o.projection_id s ≡ some row)
      × IsOf q row
unfolding operation_projection
matched_names q s o h found =
    let matched =
      find-passes (λ (x : OperationRow). submission_eq x.submission q) s.operations o found in
    let same = submission_eq-same o.submission q matched in
    let (row, there, content) = h.asked q.operation_id o (match_named q s o h found) in
    (
      row,
      rw (match_named q s o h found) (
          ground (
            arith,
            ap (λ (x : N7ProjectionSubmission). x.device_id) same,
            ap (λ (x : N7ProjectionSubmission). x.generation) same,
          )),
      there,
      subst (λ x. IsOf x row) same content,
    )

module _ (sha256 : List ℕ → List ℕ) where
  -- A reservation that returns a view shows the projection that its operation names.
  pub reserve_in-Names :
      (pid : Uuid) (q : N7ProjectionSubmission) (now : Time) (s : Store)
      → IsLinked s
      → Yields
          (λ r.
            (view : N7ProjectionView)
            → outcome_of r.0 ≡ some view
            → (p : Uuid) × (operation_projection q.operation_id q.device_id q.generation r.1 ≡ ok p)
              × (projection_view p r.1 ≡ ok view)
              × Names q r.1)
          (reserve_in pid q now s)
  unfolding exec reserve_n7_projection
  reserve_in-Names pid q now s h = record {
    at = λ (outcome, t) e view shown.
        let (o, found, shows) = (reserve_in-recorded pid q now s).at (outcome, t) e view shown in
        let ended = ap (λ r. r.1) (transactional-returns (reserve_in pid q now) s t outcome e) in
        let linked = subst IsLinked ended (exec-IsLinked sha256 (reserve pid q now) s h) in
        let (row, named, there, content) = matched_names q t o linked found in
        (o.projection_id, named, shows, (o.projection_id, row, named, there, content));
  }

  kept :
      (c : Command) (q : N7ProjectionSubmission) (s t : Store)
      → exec sha256 c s ≡ t
      → t.operations ≡ s.operations
      → Names q s
      → Names q t
  unfolding operation_projection
  kept c q s t ended e (pid, row, named, there, content) =
      let (b, here, content') = still_asked sha256 c s q pid row there content in
      (pid, b, rw e named, subst (λ x. find_record pid x ≡ some b) ended here, content')

  -- What the operation names, an attempt and a recovery leave as it is.
  pub attempt_in-Names :
      (a : AttemptRequest) (q : N7ProjectionSubmission) (s : Store)
      → Names q s
      → Yields (λ r. Names q r.1) (attempt_in a s)
  unfolding exec record_attempt
  attempt_in-Names a q s h = record {
    at = λ (outcome, t) e.
        kept (attempt a) q s t (ap (λ r. r.1) (transactional-returns (attempt_in a) s t outcome e))
          ((attempt_in-operations a s).at (outcome, t) e) h;
  }

  pub recover_in-Names :
      (a : RecoverRequest) (q : N7ProjectionSubmission) (s : Store)
      → Names q s
      → Yields (λ r. Names q r.1) (recover_in sha256 a s)
  unfolding exec recover_from_inspection
  recover_in-Names a q s h = record {
    at = λ (view, t) e.
        kept (recover a) q s t
          (ap (λ r. r.1) (transactional-returns (recover_in sha256 a) s t view e))
          ((recover_in-operations sha256 a s).at (view, t) e) h;
  }
