-- ===== src/State/History/Change.antt =====
-- crates/nodescale-state/src/n7.rs: the ways in which one operation, with any arguments and
-- whatever it returns, changes what the store holds of Fleet projections.
use hermes_nodescale.Prelude.{ℕ, ◌≡◌, inl, inr, refl, List}
use hermes_nodescale.Domain.Identifier.{Uuid}
use hermes_nodescale.State.Submission.{N7ProjectionSubmission}
use hermes_nodescale.State.Rows.{Time, Store, desired, attempted, next_attempt_number}
use hermes_nodescale.State.Reserve.{reserve_n7_projection, reserve_in}
use hermes_nodescale.State.Attempt.{
  AttemptRequest, begin_attempt, replace_attempt, record_attempt, attempt_in,
}
use hermes_nodescale.State.Recover.{RecoverRequest, recover_from_inspection, recover_in}
use hermes_nodescale.State.Transaction.{transactional-keeps}
use hermes_nodescale.State.Yields.{Yields-weaken}
use hermes_nodescale.State.Effects.{SameTables, same_tables}
use hermes_nodescale.State.Effects.Reserve.{Created, reserve_in-effect}
use hermes_nodescale.State.Effects.Attempt.{Appended, attempt_in-effect}
use hermes_nodescale.State.Effects.Recover.{Inspected, Settled, recover_in-effect}
use hermes_nodescale.State.History.{Command, reserve, attempt, recover, elsewhere, exec}

pub data Change (sha256 : List ℕ → List ℕ) (s t : Store) : Type 0 where
  same : SameTables s t → Change sha256 s t
  created :
      (pid : Uuid) (q : N7ProjectionSubmission) (now : Time)
      → Created pid q now s t
      → Change sha256 s t
  begun :
      (pid : Uuid) (q : AttemptRequest)
      → Appended pid desired (begin_attempt q.attempt_id q.now) 1 q s t
      → Change sha256 s t
  retried :
      (pid : Uuid) (q : AttemptRequest)
      → Appended pid attempted (replace_attempt q.attempt_id) (next_attempt_number pid s) q s t
      → Change sha256 s t
  looked :
      (pid aid : Uuid) (q : RecoverRequest)
      → Inspected pid aid q s t
      → t.records ≡ s.records
      → Change sha256 s t
  settled :
      (pid aid : Uuid) (q : RecoverRequest)
      → Inspected pid aid q s t
      → Settled sha256 pid aid q s t
      → Change sha256 s t

module _ (sha256 : List ℕ → List ℕ) where
  pub exec-Change : (c : Command) (s : Store) → Change sha256 s (exec sha256 c s)
  unfolding exec reserve_n7_projection record_attempt recover_from_inspection
  exec-Change (reserve pid q now) s =
      transactional-keeps (Change sha256 s) (reserve_in pid q now) s (same (same_tables s)) (
        Yields-weaken _ (reserve_in-effect pid q now s)
          λ r effect. elim effect [ inl e ↦ same e | inr c ↦ created pid q now c ])
  exec-Change (attempt q) s =
      transactional-keeps (Change sha256 s) (attempt_in q) s (same (same_tables s)) (
        Yields-weaken _ (attempt_in-effect q s) λ r (pid, _, (_, effect)). elim effect [
          | inl e ↦ same e
          | inr (inl b) ↦ begun pid q b
          | inr (inr b) ↦ retried pid q b
        ])
  exec-Change (recover q) s =
      transactional-keeps (Change sha256 s) (recover_in sha256 q) s (same (same_tables s)) (
        Yields-weaken _ (recover_in-effect sha256 q s) λ r (pid, _, (_, effect)). elim effect [
          | inl e ↦ same e
          | inr (aid, i, inl e) ↦ looked pid aid q i e
          | inr (aid, i, inr d) ↦ settled pid aid q i d
        ])
  exec-Change (elsewhere b d g) s =
      same (record { records = refl; attempts = refl; inspections = refl })
