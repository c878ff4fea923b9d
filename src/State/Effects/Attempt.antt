-- ===== src/State/Effects/Attempt.antt =====
-- crates/nodescale-state/src/n7.rs: what `record_n7_projection_dispatch_attempt` wrote, when it
-- returned Ok.
use hermes_nodescale.Prelude.{
  ℕ, ◌≡◌, refl, ◌∙◌, sym, ◌⊎◌, inl, inr, true, false, not, some, ◌∷◌, ok, any, ◌==◌, arith,
}
use mathlib.Core.Path.{subst}
use hermes_nodescale.Domain.Identifier.{Uuid}
use hermes_nodescale.State.Tables.{update_where}
use hermes_nodescale.State.Rows.{
  Time, Store, desired, attempted, applied, conflicted, N7ProjectionState, ProjectionRow,
  AttemptRow, N7ProjectionView, projection_view, find_record, operation_projection,
  binding_is_active, next_attempt_number,
}
use hermes_nodescale.State.Attempt.{
  AttemptOutcome, outcome_view, AttemptRequest, insert_attempt, fenced, begin_attempt,
  replace_attempt, begin_attempts, replace_attempts, numbered, conclude_attempt, still_active,
  attempt_by_state, attempt_in,
}
use hermes_nodescale.State.Yields.{
  yields_rules, Yields, Yields-ok, Yields-bind, Yields-fail_if, Yields-weaken,
}
use hermes_nodescale.State.Effects.{SameTables, same_tables, Shows, projection_view-Shows}

-- An attempt was appended, by an identifier that no other had and for a projection in the given
-- state whose binding was active, and the projection was updated.
pub record Appended (pid : Uuid) (from : N7ProjectionState) (change : ProjectionRow → ProjectionRow)
    (number : ℕ) (q : AttemptRequest) (s t : Store) : Type 0 where
  pub row : ProjectionRow
  pub found : find_record pid s ≡ some row
  pub state : row.state ≡ from
  pub revision : row.revision ≡ q.expected_revision
  pub active : binding_is_active row.network_id q.device_id row.binding s ≡ true
  pub fresh : any (λ (a : AttemptRow). a.attempt_id == q.attempt_id) s.attempts ≡ false
  pub records : t.records ≡ update_where (fenced pid from q.expected_revision) change s.records
  pub attempts : t.attempts ≡ numbered q pid number ∷ s.attempts
  pub inspections : t.inspections ≡ s.inspections

conclude_attempt-effect :
    (view : N7ProjectionView) (q : AttemptRequest) (s : Store)
    → Yields
        (λ r. SameTables s r.1 × Shows view.projection_id r.1 (outcome_view r.0))
        (conclude_attempt view q s)
unfolding conclude_attempt
conclude_attempt-effect view q s = Yields-bind (projection_view _ _) _ λ after h. Yields-ok _ (
  record { records = refl; attempts = refl; inspections = refl },
  (projection_view-Shows _ _).at after h,
)

still_active-true :
    (view : N7ProjectionView) (d : Uuid) (s : Store)
    → Yields
        (λ _. binding_is_active view.network_id d view.binding s ≡ true)
        (still_active view d s)
unfolding still_active
still_active-true view d s = record { at = λ u h. ground arith }

insert_attempt-row :
    (row : AttemptRow) (s : Store)
    → Yields
        (λ t.
          (any (λ (a : AttemptRow). a.attempt_id == row.attempt_id) s.attempts ≡ false)
          × (t ≡ record s { attempts = row ∷ s.attempts }))
        (insert_attempt row s)
unfolding insert_attempt
insert_attempt-row row s = Yields-fail_if (any _ s.attempts) _ _ λ h. Yields-ok _ (h, refl)

begin_attempts-rows :
    (pid aid : Uuid) (revision : ℕ) (now : Time) (s : Store)
    → Yields
        (λ t. t ≡ record s {
          records = update_where (fenced pid desired revision) (begin_attempt aid now) s.records;
        })
        (begin_attempts pid aid revision now s)
unfolding begin_attempts
begin_attempts-rows pid aid revision now s = search (yields_rules, Yields-ok)

replace_attempts-rows :
    (pid aid : Uuid) (revision : ℕ) (s : Store)
    → Yields
        (λ t. t ≡ record s {
          records = update_where (fenced pid attempted revision) (replace_attempt aid) s.records;
        })
        (replace_attempts pid aid revision s)
unfolding replace_attempts
replace_attempts-rows pid aid revision s = search (yields_rules, Yields-ok)

-- What an accepted attempt did for the projection of its operation.
abbrev pub AttemptEffect : Uuid → AttemptRequest → Store → AttemptOutcome × Store → Type 0
AttemptEffect pid q s r =
    Shows pid r.1 (outcome_view r.0)
    × (SameTables s r.1
        ⊎ (Appended pid desired (begin_attempt q.attempt_id q.now) 1 q s r.1
            ⊎ Appended pid attempted (replace_attempt q.attempt_id) (next_attempt_number pid s) q s
                r.1))

module _ (view : N7ProjectionView) (q : AttemptRequest) (s : Store)
    (shown : Shows view.projection_id s view) (fence : view.revision ≡ q.expected_revision) where
  appended :
      (from : N7ProjectionState) (change : ProjectionRow → ProjectionRow) (number : ℕ)
      (s1 s2 t : Store)
      → view.state ≡ from
      → binding_is_active view.network_id q.device_id view.binding s ≡ true
      → (any (λ (a : AttemptRow). a.attempt_id == q.attempt_id) s.attempts ≡ false)
        × (s1 ≡ record s { attempts = numbered q view.projection_id number ∷ s.attempts })
      → s2 ≡ record s1 {
        records =
            update_where (fenced view.projection_id from q.expected_revision) change s1.records;
      }
      → SameTables s2 t
      → Appended view.projection_id from change number q s t
  appended from change number s1 s2 t e active (fresh, e1) e2 same = record {
    row = shown.row;
    found = shown.found;
    state = sym shown.state ∙ e;
    revision = sym shown.revision ∙ fence;
    active = rw (sym shown.network_id, sym shown.binding) active;
    fresh = fresh;
    records = same.records ∙ rw (e2, e1) refl;
    attempts = same.attempts ∙ rw (e2, e1) refl;
    inspections = same.inspections ∙ rw (e2, e1) refl;
  }

  by_state-effect :
      (from : N7ProjectionState)
      → view.state ≡ from
      → Yields (AttemptEffect view.projection_id q s) (attempt_by_state from view q s)
  unfolding attempt_by_state
  by_state-effect desired e = Yields-bind (still_active _ _ _) _ λ u h0.
      Yields-bind (insert_attempt _ _) _ λ s1 h1. Yields-bind (begin_attempts _ _ _ _ _) _ λ s2 h2.
        Yields-weaken _ (conclude_attempt-effect _ _ _) λ r (same, after). (
          after,
          inr (
              inl (
                appended desired _ 1 s1 s2 r.1 e ((still_active-true _ _ _).at u h0)
                  ((insert_attempt-row _ _).at s1 h1) ((begin_attempts-rows _ _ _ _ _).at s2 h2)
                  same)),
        )
  by_state-effect attempted e = Yields-bind (still_active _ _ _) _ λ u h0.
      Yields-bind (insert_attempt _ _) _ λ s1 h1. Yields-bind (replace_attempts _ _ _ _) _ λ s2 h2.
        Yields-weaken _ (conclude_attempt-effect _ _ _) λ r (same, after). (
          after,
          inr (
              inr (
                appended attempted _ _ s1 s2 r.1 e ((still_active-true _ _ _).at u h0)
                  ((insert_attempt-row _ _).at s1 h1) ((replace_attempts-rows _ _ _ _).at s2 h2)
                  same)),
        )
  by_state-effect applied e = Yields-ok _ (shown, inl (same_tables s))
  by_state-effect conflicted e = Yields-ok _ (shown, inl (same_tables s))

-- An attempt leaves the tables alone, or appends one attempt to the projection that its operation
-- names.
pub attempt_in-effect :
    (q : AttemptRequest) (s : Store)
    → Yields
        (λ r.
          (pid : Uuid) × (operation_projection q.operation_id q.device_id q.generation s ≡ ok pid)
          × AttemptEffect pid q s r)
        (attempt_in q s)
unfolding attempt_in
attempt_in-effect q s = Yields-bind (operation_projection _ _ _ _) _ λ pid named.
    Yields-bind (projection_view _ _) _ λ view h1.
      let shown = (projection_view-Shows pid s).at view h1 in
      Yields-fail_if (not (view.revision == q.expected_revision)) _ _ λ fence.
        Yields-weaken _
          (by_state-effect view q s (subst (λ p. Shows p s view) (sym shown.projection_id) shown)
            (ground arith) view.state refl)
          λ r effect. (pid, named, subst (λ p. AttemptEffect p q s r) shown.projection_id effect)
