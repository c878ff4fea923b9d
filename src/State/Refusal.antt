-- ===== src/State/Refusal.antt =====
-- crates/nodescale-state/src/n7.rs: an inspection by an operation that joined a projection which
-- another one has attempted.
use mathlib.Core.Path.{subst}
use hermes_nodescale.Prelude.{
  ℕ, ◌≡◌, refl, sym, inl, inr, true, false, Option, none, List, [], ◌∷◌, ok, err, any, ◌==◌, arith,
  is_some, some,
}
use hermes_nodescale.Text.{Text}
use hermes_nodescale.Domain.Identifier.{Uuid}
use hermes_nodescale.State.Submission.{
  StateError, N7ProjectionSubmission, N7AuthoritativeInspection, sqlite,
}
use hermes_nodescale.State.Rows.{
  Time, Store, attempted, AttemptRow, OperationRow, N7ProjectionState, N7ProjectionView,
  operation_exists, current_attempt_id,
}
use hermes_nodescale.State.Reserve.{ReservationOutcome, replayed, reserve_n7_projection, reserve_in}
use hermes_nodescale.State.Recover.{
  RecoverRequest, is_attempt, insert_inspection, recover_by_state, recover_in,
  recover_from_inspection,
}
use hermes_nodescale.State.Transaction.{outcome-cases, transactional-ok, transactional-fails}
use hermes_nodescale.State.Effects.Reserve.{reserve_in-effect}
use hermes_nodescale.State.History.{Command, run, empty_store}
use hermes_nodescale.State.History.Links.{IsLinked}
use hermes_nodescale.State.History.Named.{reserve_in-Names}
use hermes_nodescale.State.History.Attempted.{made_by, IsAttributed, run-IsAttributed}

-- An operation without attempts made no attempt of any projection.
none_of :
    (aid pid : Uuid) (op : Text) (rows : List AttemptRow)
    → any (made_by op) rows ≡ false
    → any (is_attempt aid pid op) rows ≡ false
none_of aid pid op [] h = refl
none_of aid pid op (a ∷ rows) h = ground (arith, none_of aid pid op rows)

-- An operation without attempts cannot have an inspection recorded.
by_state :
    (sha256 : List ℕ → List ℕ) (q : RecoverRequest) (s : Store) (view : N7ProjectionView)
    (st : N7ProjectionState)
    → st ≡ attempted
    → any (made_by q.operation_id) s.attempts ≡ false
    → (e : StateError) × (recover_by_state sha256 st view q s ≡ err e)
unfolding recover_by_state insert_inspection
by_state sha256 q s view st attempts idle =
    elim (outcome-cases (current_attempt_id view.projection_id s)) [
      | inl (e, h) ↦ (e, rw (attempts, h) refl)
      | inr (aid, h) ↦
          let unknown = none_of aid view.projection_id q.operation_id s.attempts idle in
          (
            sqlite "N7 inspection requires the exact attempted operation and revision",
            rw (attempts, h, unknown) refl,
          )
    ]

not_there : (o : Option OperationRow) → is_some o ≡ false → o ≡ none
not_there none h = refl
not_there (some o) h = cc

abbrev pub inspects :
    N7ProjectionSubmission → N7ProjectionView → N7AuthoritativeInspection → Time → RecoverRequest
inspects q view i later = record {
  operation_id = q.operation_id;
  device_id = q.device_id;
  generation = q.generation;
  expected_revision = view.revision;
  inspection = i;
  now = later;
}

attempts_kept :
    (pid : Uuid) (q : N7ProjectionSubmission) (now : Time) (s t : Store)
    (outcome : ReservationOutcome)
    → reserve_in pid q now s ≡ ok (outcome, t)
    → t.attempts ≡ s.attempts
attempts_kept pid q now s t outcome h = elim ((reserve_in-effect pid q now s).at (outcome, t) h) [
  | inl e ↦ e.attempts
  | inr c ↦ c.attempts
]

-- On a store that any sequence of operations has made of an empty one, a reservation under an
-- operation that is not recorded there may be answered by a replay of a projection that another
-- operation has attempted. Then an inspection under the new operation, of the revision that the
-- replay showed, whatever it observed and whenever, fails and leaves the store as it is: the
-- operation can neither settle the projection nor record that Fleet lacks it.
pub joined_operation_cannot_inspect :
    (sha256 : List ℕ → List ℕ) (cs : List Command) (pid : Uuid) (q : N7ProjectionSubmission)
    (now later : Time) (i : N7AuthoritativeInspection) (view : N7ProjectionView) (s t : Store)
    → s ≡ run sha256 cs empty_store
    → operation_exists q.operation_id s ≡ false
    → reserve_n7_projection pid q now s ≡ (ok (replayed view), t)
    → view.state ≡ attempted
    → (e : StateError) × (recover_from_inspection sha256 (inspects q view i later) t ≡ (err e, t))
unfolding recover_from_inspection recover_in
joined_operation_cannot_inspect sha256 cs pid q now later i view s t past absent h attempts =
    let first =
      transactional-ok (reserve_in pid q now) s t (replayed view)
        (unfold reserve_n7_projection in h) in
    let invariants = run-IsAttributed sha256 cs in
    let linked = subst IsLinked (sym past) invariants.0 in
    let known = subst IsAttributed (sym past) invariants.1 in
    let (p, named, shown, _) =
      (reserve_in-Names sha256 pid q now s linked).at (replayed view, t) first view refl in
    let idle : any (made_by q.operation_id) t.attempts ≡ false =
      rw (attempts_kept pid q now s t (replayed view) first)
        (known q.operation_id (not_there _ absent)) in
    let (e, refused) = by_state sha256 (inspects q view i later) t view view.state attempts idle in
    let same_revision : (view.revision == view.revision) ≡ true = ground arith in
    (
      e,
      transactional-fails (recover_in sha256 (inspects q view i later)) t e
          (rw (named, shown, same_revision) refused),
    )
