-- ===== src/State/Attempt.antt =====
-- crates/nodescale-state/src/n7.rs: `record_n7_projection_dispatch_attempt`. The new attempt's
-- random identifier is an argument.
use hermes_nodescale.Prelude.{
  ℕ, Bool, ◌&&◌, not, ◌∷◌, some, ok, err, ◌>>=◌, ◌>>◌, fail_if, ltb, ◌==◌, if◌then◌else◌, any,
}
use hermes_nodescale.Text.{Text}
use hermes_nodescale.Domain.Identifier.{Uuid}
use hermes_nodescale.Domain.Generation.{Generation}
use hermes_nodescale.State.Tables.{update_where, count}
use hermes_nodescale.State.Submission.{Stored, StateError, sqlite, conflict, stale_generation}
use hermes_nodescale.State.Rows.{
  Time, desired, attempted, applied, conflicted, N7ProjectionState, state_eq, ProjectionRow,
  AttemptRow, projection_attempted, Store, transactional, N7ProjectionView, projection_view,
  binding_is_active, operation_projection, next_attempt_number, append_audit, has_id,
}

-- `N7ProjectionAttemptOutcome`
pub data AttemptOutcome : Type 0 where
  recorded : N7ProjectionView → AttemptOutcome
  replayed : N7ProjectionView → AttemptOutcome

-- The view that an outcome carries, of a new attempt or not.
abbrev pub outcome_view : AttemptOutcome → N7ProjectionView
outcome_view (recorded view) = view
outcome_view (replayed view) = view

-- `stale_revision`
abbrev pub stale_revision : ℕ → ℕ → StateError
stale_revision = stale_generation

-- The INSERT of an attempt, which its primary key may refuse.
unfoldable pub insert_attempt : AttemptRow → Store → Stored Store
insert_attempt row s = do
  fail_if (any (λ (a : AttemptRow). a.attempt_id == row.attempt_id) s.attempts)
      (sqlite "PRIMARY KEY")
  ok (record s { attempts = row ∷ s.attempts })

-- The rows of an UPDATE that is fenced by the state and the revision.
abbrev pub fenced : Uuid → N7ProjectionState → ℕ → ProjectionRow → Bool
fenced projection_id state revision r =
    has_id projection_id r && state_eq r.state state && r.revision == revision

-- The number of rows in a fenced UPDATE is not one.
unfoldable pub claimed : Uuid → N7ProjectionState → ℕ → Store → Stored (Unit {0})
claimed projection_id state revision s =
    if count (fenced projection_id state revision) s.records == 1
    then ok tt
    else do view ← projection_view projection_id s; err (stale_revision revision view.revision)

abbrev pub begin_attempt : Uuid → Time → ProjectionRow → ProjectionRow
begin_attempt attempt_id now r = record r {
  state = attempted;
  revision = 2;
  current_attempt_id = some attempt_id;
  attempted_at = some now;
}

abbrev pub replace_attempt : Uuid → ProjectionRow → ProjectionRow
replace_attempt attempt_id r = record r { current_attempt_id = some attempt_id }

-- The UPDATE of a desired projection. Its column attempted_at_ms may not be before
-- persisted_at_ms.
unfoldable pub begin_attempts : Uuid → Uuid → ℕ → Time → Store → Stored Store
begin_attempts projection_id attempt_id revision now s = do
  let claim = fenced projection_id desired revision
  fail_if (any (λ (r : ProjectionRow). claim r && ltb now r.persisted_at) s.records)
      (sqlite "CHECK")
  ok (record s { records = update_where claim (begin_attempt attempt_id now) s.records })

unfoldable pub replace_attempts : Uuid → Uuid → ℕ → Store → Stored Store
replace_attempts projection_id attempt_id revision s = do
  claimed projection_id attempted revision s
  ok (record s {
    records =
        update_where (fenced projection_id attempted revision) (replace_attempt attempt_id)
          s.records;
  })

-- The arguments of the operation, beside the store.
pub record AttemptRequest : Type 0 where
  pub operation_id : Text
  pub device_id : Uuid
  pub generation : Generation
  pub expected_revision : ℕ
  pub attempt_id : Uuid
  pub now : Time

-- The audit row and the outcome, after the UPDATE.
unfoldable pub conclude_attempt :
    N7ProjectionView → AttemptRequest → Store → Stored (AttemptOutcome × Store)
conclude_attempt view q s = do
  let audited =
      append_audit
        (record {
          projection_id = view.projection_id;
          operation_id = q.operation_id;
          network_id = view.network_id;
          device_id = q.device_id;
          event_kind = projection_attempted;
          generation = q.generation;
          revision = 2;
          recorded_at = q.now;
        })
        s
  after ← projection_view view.projection_id audited
  ok (recorded after, audited)

abbrev pub numbered : AttemptRequest → Uuid → ℕ → AttemptRow
numbered q projection_id attempt_number = record {
  attempt_id = q.attempt_id;
  projection_id = projection_id;
  operation_id = q.operation_id;
  attempt_number = attempt_number;
  expected_revision = q.expected_revision;
  attempted_at = q.now;
}

unfoldable pub still_active : N7ProjectionView → Uuid → Store → Stored (Unit {0})
still_active view device_id s =
    fail_if (not (binding_is_active view.network_id device_id view.binding s))
      (conflict "N7 binding provenance is no longer active")

unfoldable pub attempt_by_state :
    N7ProjectionState → N7ProjectionView → AttemptRequest → Store → Stored (AttemptOutcome × Store)
attempt_by_state desired view q s = do
  still_active view q.device_id s
  s1 ← insert_attempt (numbered q view.projection_id 1) s
  s2 ← begin_attempts view.projection_id q.attempt_id q.expected_revision q.now s1
  conclude_attempt view q s2
attempt_by_state attempted view q s = do
  still_active view q.device_id s
  let number = next_attempt_number view.projection_id s
  s1 ← insert_attempt (numbered q view.projection_id number) s
  s2 ← replace_attempts view.projection_id q.attempt_id q.expected_revision s1
  conclude_attempt view q s2
attempt_by_state applied view q s = ok (replayed view, s)
attempt_by_state conflicted view q s = ok (replayed view, s)

unfoldable pub attempt_in : AttemptRequest → Store → Stored (AttemptOutcome × Store)
attempt_in q s = do
  projection_id ← operation_projection q.operation_id q.device_id q.generation s
  view ← projection_view projection_id s
  fail_if (not (view.revision == q.expected_revision))
      (stale_revision q.expected_revision view.revision)
  attempt_by_state view.state view q s

-- `record_n7_projection_dispatch_attempt`
unfoldable pub record_attempt : AttemptRequest → Store → Stored AttemptOutcome × Store
record_attempt q = transactional (attempt_in q)
