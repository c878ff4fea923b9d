-- ===== src/State/Replay.antt =====
-- crates/nodescale-state/src/n7.rs: `reserve_n7_projection`, asked again.
use hermes_nodescale.Prelude.{◌≡◌, refl, ap, ◌∙◌, true, Option, some, none, List, ◌∷◌, ok, arith}
use hermes_nodescale.Text.{Text, text_eq}
use hermes_nodescale.Text.Laws.{text_eq_iff}
use hermes_nodescale.Domain.Identifier.{Uuid}
use hermes_nodescale.State.Tables.{find}
use hermes_nodescale.State.Submission.{N7ProjectionSubmission, sql_integer}
use hermes_nodescale.State.Rows.{
  Time, Store, OperationRow, submission_eq, projection_view, N7ProjectionView, ProjectionRow,
  matching_operation, insert_operation,
}
use hermes_nodescale.State.Device.{set_device_status, advance_generation}
use hermes_nodescale.State.Reserve.{
  ReservationOutcome, reserved, replayed, conflict, differs, insert_projection, create_projection,
  first_projection, join_projection, new_operation, reserve_in, reserve_n7_projection,
}
use hermes_nodescale.State.Effects.Operations.{status-operations, advance-operations}
use hermes_nodescale.State.Transaction.{transactional-ok, transactional-returns}
use hermes_nodescale.State.Yields.{
  yields_rules, Yields, Yields-ok, Yields-if, Yields-if_let_some, Yields-bind, Yields-weaken,
}

text_eq_refl : (t : Text) → text_eq t t ≡ true
text_eq_refl t = (text_eq_iff t t).1 refl

submission_eq_refl : (q : N7ProjectionSubmission) → submission_eq q q ≡ true
submission_eq_refl q = ground (
  arith,
  text_eq_refl q.operation_id,
  text_eq_refl q.desired_body,
  text_eq_refl q.desired_hash,
  text_eq_refl q.binding.binding_id,
  text_eq_refl q.binding.authenticated_peer_id,
)

abbrev operation_row : Uuid → N7ProjectionSubmission → Time → OperationRow
operation_row pid q now = record { projection_id = pid; submission = q; recorded_at = now }

abbrev pub outcome_of : ReservationOutcome → Option N7ProjectionView
outcome_of (reserved view) = some view
outcome_of (replayed view) = some view
outcome_of conflict = none

-- The submission is recorded, with this view.
abbrev IsRecorded : N7ProjectionSubmission → N7ProjectionView → Store → Type 0
IsRecorded q view t =
    (o : OperationRow) × (matching_operation q t ≡ some o)
    × (projection_view o.projection_id t ≡ ok view)

abbrev WillReplay : N7ProjectionSubmission → ReservationOutcome × Store → Type 0
WillReplay q r = (view : N7ProjectionView) → outcome_of r.0 ≡ some view → IsRecorded q view r.1

refused : (q : N7ProjectionSubmission) (t : Store) → WillReplay q (conflict, t)
refused q t view h = absurd (cc h)

same_view : (v w : N7ProjectionView) → ◌≡◌ {A = Option N7ProjectionView} (some v) (some w) → v ≡ w
same_view v w h = cc

-- The operation that was inserted last is the one that matches.
inserted :
    (pid : Uuid) (q : N7ProjectionSubmission) (now : Time) (rest : List OperationRow) (t : Store)
    (view w : N7ProjectionView)
    → t.operations ≡ operation_row pid q now ∷ rest
    → projection_view pid t ≡ ok view
    → ◌≡◌ {A = Option N7ProjectionView} (some view) (some w)
    → IsRecorded q w t
inserted pid q now rest t view w e shown h = (
  operation_row pid q now,
  ap (find (λ (o : OperationRow). submission_eq o.submission q)) e ∙ rw (submission_eq_refl q) refl,
  shown ∙ ap ok (same_view view w h),
)

create-WillReplay :
    (pid : Uuid) (q : N7ProjectionSubmission) (now : Time) (s : Store)
    → Yields (WillReplay q) (create_projection pid q now s)
unfolding create_projection
create-WillReplay pid q now s = Yields-bind (insert_projection pid q now s) _ λ s1 _.
    Yields-bind (set_device_status _ _ _ _) _ λ s2 h2.
      Yields-bind (advance_generation _ _ _ _) _ λ s3 h3.
        Yields-bind (projection_view _ _) _ λ view h4. Yields-ok _ λ w e.
          inserted pid q now s1.operations s3 view w
            ((advance-operations _ _ _ _).at s3 h3 ∙ (status-operations _ _ _ _).at s2 h2) h4 e

-- A view reads only the records.
view_of_records :
    (pid : Uuid) (s : Store) (operations : List OperationRow)
    → projection_view pid (record s { operations = operations }) ≡ projection_view pid s
unfolding projection_view
view_of_records pid s operations = refl

join-WillReplay :
    (r : ProjectionRow) (q : N7ProjectionSubmission) (now : Time) (s : Store)
    → Yields (WillReplay q) (join_projection r q now s)
unfolding join_projection
join-WillReplay r q now s = Yields-bind (projection_view _ _) _ λ view h.
    let joined = insert_operation r.projection_id q now s in
    Yields-if (differs view q) (ok (conflict, s)) (ok (replayed view, joined))
      (λ _. Yields-ok (conflict, s) (refused q s))
      λ _.
        Yields-ok (replayed view, joined)
          λ w e.
            inserted r.projection_id q now s.operations joined view w refl
              (view_of_records _ s _ ∙ h) e

first-WillReplay :
    (pid : Uuid) (q : N7ProjectionSubmission) (now : Time) (s : Store)
    → Yields (WillReplay q) (first_projection pid q now s)
unfolding first_projection
first-WillReplay pid q now s = search (yields_rules, Yields-ok, refused, create-WillReplay) depth 10

new-WillReplay :
    (pid : Uuid) (q : N7ProjectionSubmission) (now : Time) (s : Store)
    → Yields (WillReplay q) (new_operation pid q now s)
unfolding new_operation
new-WillReplay pid q now s =
    search (yields_rules, Yields-ok, refused, join-WillReplay, first-WillReplay) depth 10

-- Both generations of the submission are SQLite integers.
abbrev IsBound : N7ProjectionSubmission → Type 0
IsBound q = (sql_integer q.generation ≡ ok tt) × (sql_integer q.binding.binding_generation ≡ ok tt)

reserve-WillReplay :
    (pid : Uuid) (q : N7ProjectionSubmission) (now : Time) (s : Store)
    → Yields (λ r. WillReplay q r × IsBound q) (reserve_in pid q now s)
unfolding reserve_in
reserve-WillReplay pid q now s = Yields-bind (sql_integer _) _ λ u h1.
    Yields-bind (sql_integer _) _ λ u' h2.
      Yields-weaken _
        (Yields-if_let_some (matching_operation q s) _ _
          (λ o found.
            Yields-bind (projection_view _ _) _
              λ view h. Yields-ok _ λ w e. (o, found, h ∙ ap ok (same_view view w e)))
          (λ _. new-WillReplay pid q now s))
        λ r will. (will, (h1, h2))

-- A reservation that returns a view has recorded the submission, with this view.
pub reserve_in-recorded :
    (pid : Uuid) (q : N7ProjectionSubmission) (now : Time) (s : Store)
    → Yields
        (λ r.
          (view : N7ProjectionView)
          → outcome_of r.0 ≡ some view
          → (o : OperationRow) × (matching_operation q r.1 ≡ some o)
            × (projection_view o.projection_id r.1 ≡ ok view))
        (reserve_in pid q now s)
reserve_in-recorded pid q now s =
    Yields-weaken _ (reserve-WillReplay pid q now s) λ r (will, _). will

replays :
    (again : Uuid) (q : N7ProjectionSubmission) (later : Time) (t : Store) (view : N7ProjectionView)
    → IsBound q
    → IsRecorded q view t
    → reserve_n7_projection again q later t ≡ (ok (replayed view), t)
unfolding reserve_n7_projection reserve_in
replays again q later t view (small, small_binding) (o, found, seen) =
    transactional-returns (reserve_in again q later) t t (replayed view)
      (rw (small, small_binding, found, seen) refl)

-- Once a reservation has returned a view, the same submission, at any time and with any new
-- identifier, is answered by a replay with that view, and the store stays as it is.
pub reserve_again :
    (pid again : Uuid) (q : N7ProjectionSubmission) (now later : Time) (s t : Store)
    (outcome : ReservationOutcome) (view : N7ProjectionView)
    → reserve_n7_projection pid q now s ≡ (ok outcome, t)
    → outcome_of outcome ≡ some view
    → reserve_n7_projection again q later t ≡ (ok (replayed view), t)
reserve_again pid again q now later s t outcome view h shown =
    let first =
      transactional-ok (reserve_in pid q now) s t outcome (unfold reserve_n7_projection in h) in
    let (will, bound) = (reserve-WillReplay pid q now s).at (outcome, t) first in
    replays again q later t view bound (will view shown)
