-- ===== src/State/Effects/Operations.antt =====
-- crates/nodescale-state/src/n7.rs: what leaves the table of operations alone.
use hermes_nodescale.Prelude.{ℕ, ◌≡◌, refl, ◌∙◌, List}
use hermes_nodescale.Domain.Identifier.{Uuid}
use hermes_nodescale.Domain.Lifecycle.Projection.{ProjectionStatus}
use hermes_nodescale.Domain.Generation.{Generation}
use hermes_nodescale.State.Rows.{
  Time, Store, AttemptRow, InspectionRow, desired, attempted, applied, conflicted,
  N7ProjectionState, N7ProjectionView, projection_view, current_attempt_id,
}
use hermes_nodescale.State.Device.{set_device_status, advance_generation}
use hermes_nodescale.State.Attempt.{
  AttemptRequest, attempt_in, attempt_by_state, still_active, insert_attempt, begin_attempts,
  replace_attempts, conclude_attempt,
}
use hermes_nodescale.State.Recover.{
  RecoverRequest, recover_in, recover_by_state, recover_by_kind, insert_inspection, latest_body,
  conclude_recovery, settle_projection, Verdict,
}
use hermes_nodescale.State.Submission.{N7AuthoritativeInspection, observed, missing, unavailable}
use hermes_nodescale.State.Yields.{
  yields_rules, Yields, Yields-ok, Yields-err, Yields-bind, Yields-weaken,
}

pub status-operations :
    (d : Uuid) (status : ProjectionStatus) (now : Time) (s : Store)
    → Yields (λ t. t.operations ≡ s.operations) (set_device_status d status now s)
unfolding set_device_status
status-operations d status now s = search (yields_rules, Yields-ok)

pub advance-operations :
    (d : Uuid) (g : Generation) (now : Time) (s : Store)
    → Yields (λ t. t.operations ≡ s.operations) (advance_generation d g now s)
unfolding advance_generation
advance-operations d g now s = search (yields_rules, Yields-ok) depth 12

-- An attempt writes no operation.
abbrev KeepsOperations : {A : Type 0} → Store → A × Store → Type 0
KeepsOperations s r = r.1.operations ≡ s.operations

insert_attempt-operations :
    (row : AttemptRow) (s : Store)
    → Yields (λ t. t.operations ≡ s.operations) (insert_attempt row s)
unfolding insert_attempt
insert_attempt-operations row s = search (yields_rules, Yields-ok)

begin_attempts-operations :
    (pid aid : Uuid) (n : ℕ) (now : Time) (s : Store)
    → Yields (λ t. t.operations ≡ s.operations) (begin_attempts pid aid n now s)
unfolding begin_attempts
begin_attempts-operations pid aid n now s = search (yields_rules, Yields-ok)

replace_attempts-operations :
    (pid aid : Uuid) (n : ℕ) (s : Store)
    → Yields (λ t. t.operations ≡ s.operations) (replace_attempts pid aid n s)
unfolding replace_attempts
replace_attempts-operations pid aid n s = search (yields_rules, Yields-ok)

conclude_attempt-operations :
    (view : N7ProjectionView) (q : AttemptRequest) (s : Store)
    → Yields (KeepsOperations s) (conclude_attempt view q s)
unfolding conclude_attempt
conclude_attempt-operations view q s = search (yields_rules, Yields-ok)

attempt_by_state-operations :
    (from : N7ProjectionState) (view : N7ProjectionView) (q : AttemptRequest) (s : Store)
    → Yields (KeepsOperations s) (attempt_by_state from view q s)
unfolding attempt_by_state
attempt_by_state-operations desired view q s = Yields-bind (still_active _ _ _) _ λ u _.
    Yields-bind (insert_attempt _ _) _ λ s1 h1. Yields-bind (begin_attempts _ _ _ _ _) _ λ s2 h2.
      Yields-weaken _ (conclude_attempt-operations _ _ _) λ r e.
        e
        ∙ (begin_attempts-operations _ _ _ _ _).at s2 h2
        ∙ (insert_attempt-operations _ _).at s1 h1
attempt_by_state-operations attempted view q s = Yields-bind (still_active _ _ _) _ λ u _.
    Yields-bind (insert_attempt _ _) _ λ s1 h1. Yields-bind (replace_attempts _ _ _ _) _ λ s2 h2.
      Yields-weaken _ (conclude_attempt-operations _ _ _) λ r e.
        e
        ∙ (replace_attempts-operations _ _ _ _).at s2 h2
        ∙ (insert_attempt-operations _ _).at s1 h1
attempt_by_state-operations applied view q s = Yields-ok _ refl
attempt_by_state-operations conflicted view q s = Yields-ok _ refl

pub attempt_in-operations :
    (q : AttemptRequest) (s : Store) → Yields (KeepsOperations s) (attempt_in q s)
unfolding attempt_in
attempt_in-operations q s = search (yields_rules, attempt_by_state-operations)

-- A recovery writes none either.
insert_inspection-operations :
    (row : InspectionRow) (s : Store)
    → Yields (λ t. t.operations ≡ s.operations) (insert_inspection row s)
unfolding insert_inspection
insert_inspection-operations row s = search (yields_rules, Yields-ok)

settle-operations :
    (v : Verdict) (pid : Uuid) (n : ℕ) (now : Time) (s : Store)
    → Yields (λ t. t.operations ≡ s.operations) (settle_projection v pid n now s)
unfolding settle_projection
settle-operations v pid n now s = search (yields_rules, Yields-ok)

conclude_recovery-operations :
    (sha256 : List ℕ → List ℕ) (v : Verdict) (view : N7ProjectionView) (q : RecoverRequest)
    (s : Store)
    → Yields (KeepsOperations s) (conclude_recovery sha256 v view q s)
unfolding conclude_recovery
conclude_recovery-operations sha256 v view q s =
    Yields-bind (settle_projection _ _ _ _ _) _ λ s1 h1.
      Yields-bind (set_device_status _ _ _ _) _ λ s2 h2.
        Yields-bind (projection_view _ _) _ λ after _.
          Yields-ok _
            ((status-operations _ _ _ _).at s2 h2 ∙ (settle-operations _ _ _ _ _).at s1 h1)

recover_by_kind-operations :
    (sha256 : List ℕ → List ℕ) (i : N7AuthoritativeInspection) (view : N7ProjectionView)
    (aid : Uuid) (q : RecoverRequest) (s : Store)
    → Yields (KeepsOperations s) (recover_by_kind sha256 i view aid q s)
unfolding recover_by_kind
recover_by_kind-operations sha256 missing view aid q s = Yields-ok _ refl
recover_by_kind-operations sha256 unavailable view aid q s = Yields-ok _ refl
recover_by_kind-operations sha256 (observed _ _) view aid q s =
    Yields-bind (latest_body _ _ _) _ λ body _. conclude_recovery-operations sha256 _ _ _ _

recover_by_state-operations :
    (sha256 : List ℕ → List ℕ) (from : N7ProjectionState) (view : N7ProjectionView)
    (q : RecoverRequest) (s : Store)
    → Yields (KeepsOperations s) (recover_by_state sha256 from view q s)
unfolding recover_by_state
recover_by_state-operations sha256 desired view q s = Yields-err _
recover_by_state-operations sha256 applied view q s = Yields-ok _ refl
recover_by_state-operations sha256 conflicted view q s = Yields-ok _ refl
recover_by_state-operations sha256 attempted view q s =
    Yields-bind (current_attempt_id _ _) _ λ aid _. Yields-bind (insert_inspection _ _) _ λ s1 h1.
      Yields-weaken _ (recover_by_kind-operations sha256 _ _ _ _ _)
        λ r e. e ∙ (insert_inspection-operations _ _).at s1 h1

pub recover_in-operations :
    (sha256 : List ℕ → List ℕ) (q : RecoverRequest) (s : Store)
    → Yields (KeepsOperations s) (recover_in sha256 q s)
unfolding recover_in
recover_in-operations sha256 q s = search (yields_rules, recover_by_state-operations sha256)
