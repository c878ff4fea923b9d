-- ===== src/State/History/Subjects.antt =====
-- crates/nodescale-state/src/n7.rs: the device and the generation that a projection is for.
use mathlib.Core.Path.{subst}
use hermes_nodescale.Prelude.{
  ℕ, ◌≤◌, ◌≡◌, refl, inl, inr, Bool, true, ◌&&◌, List, arith, ◌==◌, Bool-cases,
}
use hermes_nodescale.Domain.Identifier.{Uuid}
use hermes_nodescale.Domain.Generation.{Generation}
use hermes_nodescale.State.Tables.{count}
use hermes_nodescale.State.Tables.Laws.{count-update_where, count-absent}
use hermes_nodescale.State.Submission.{N7ProjectionSubmission}
use hermes_nodescale.State.Rows.{Time, Store, desired, attempted, ProjectionRow}
use hermes_nodescale.State.Reserve.{same_subject, desired_row}
use hermes_nodescale.State.Attempt.{fenced, begin_attempt, replace_attempt}
use hermes_nodescale.State.Recover.{Verdict, agrees, disagrees, settle, judge}
use hermes_nodescale.State.Effects.Reserve.{Created}
use hermes_nodescale.State.History.{Command, run, run-keeps, empty_store}
use hermes_nodescale.State.History.Change.{
  Change, same, created, begun, retried, looked, settled, exec-Change,
}

abbrev pub is_for : Uuid → Generation → ProjectionRow → Bool
is_for device_id g r = r.device_id == device_id && r.generation == g

abbrev pub IsUniqueBySubject : Store → Type 0
IsUniqueBySubject s = (device_id : Uuid) (g : Generation) → count (is_for device_id g) s.records ≤ 1

settle-is_for :
    (d : Uuid) (g : Generation) (v : Verdict) (now : Time) (r : ProjectionRow)
    → is_for d g (settle v now r) ≡ is_for d g r
settle-is_for d g agrees now r = refl
settle-is_for d g disagrees now r = refl

subject :
    (d : Uuid) (g : Generation) (pid : Uuid) (q : N7ProjectionSubmission) (now : Time)
    → is_for d g (desired_row pid q now) ≡ true
    → (q.device_id ≡ d) × (q.generation ≡ g)
subject d g pid q now h = ground arith

Created-unique :
    (pid : Uuid) (q : N7ProjectionSubmission) (now : Time) (s t : Store)
    → IsUniqueBySubject s
    → Created pid q now s t
    → IsUniqueBySubject t
Created-unique pid q now s t h c d g =
    rw c.records (elim (Bool-cases (is_for d g (desired_row pid q now))) [
      | inl here ↦
          let (e, f) = subject d g pid q now here in
          let absent =
            subst (λ x. count (is_for x g) s.records ≡ 0) e
              (subst (λ y. count (is_for q.device_id y) s.records ≡ 0) f
                (count-absent (same_subject q) s.records c.alone)) in
          rw (here, absent) (omega arith)
      | inr other ↦ rw other (h d g)
    ])

module _ (sha256 : List ℕ → List ℕ) where
  Change-unique : (s t : Store) → IsUniqueBySubject s → Change sha256 s t → IsUniqueBySubject t
  Change-unique s t h (same e) d g = rw e.records (h d g)
  Change-unique s t h (created pid q now c) d g = Created-unique pid q now s t h c d g
  Change-unique s t h (begun pid q c) d g =
      rw
        (
          c.records,
          count-update_where (is_for d g) (fenced pid desired q.expected_revision)
              (begin_attempt q.attempt_id q.now) s.records (λ r. refl),
        )
        (h d g)
  Change-unique s t h (retried pid q c) d g =
      rw
        (
          c.records,
          count-update_where (is_for d g) (fenced pid attempted q.expected_revision)
              (replace_attempt q.attempt_id) s.records (λ r. refl),
        )
        (h d g)
  Change-unique s t h (looked pid aid q i e) d g = rw e (h d g)
  Change-unique s t h (settled pid aid q i e) d g =
      let v = judge sha256 e.view e.body in
      rw
        (
          e.records,
          count-update_where (is_for d g) (fenced pid attempted q.expected_revision)
              (settle v q.now) s.records (settle-is_for d g v q.now),
        )
        (h d g)

  -- After every sequence of operations on an empty store, no device has two projections of one
  -- generation.
  pub one_projection_per_generation :
      (cs : List Command) → IsUniqueBySubject (run sha256 cs empty_store)
  one_projection_per_generation cs =
      run-keeps sha256 IsUniqueBySubject (λ c s h. Change-unique s _ h (exec-Change sha256 c s)) cs
        empty_store (λ d g. omega arith)
