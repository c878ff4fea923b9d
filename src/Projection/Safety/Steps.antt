-- ===== src/Projection/Safety/Steps.antt =====
-- crates/nodescale-projection/src/lib.rs: the driver's calls of the store and of Fleet.
use hermes_nodescale.Prelude.{ℕ, ◌≡◌, refl, sym, ap, ◌∙◌, false, List, Option, some, ok}
use hermes_nodescale.Text.{Text}
use hermes_nodescale.Json.{SerdeJson}
use hermes_nodescale.Domain.Identifier.{Uuid, UuidCrate}
use hermes_nodescale.Domain.Generation.{Generation}
use hermes_nodescale.State.Rows.{
  Store, desired, attempted, applied, conflicted, N7ProjectionState, operation_projection,
  N7ProjectionView, ProjectionRow,
}
use hermes_nodescale.State.Submission.{Stored, N7ProjectionSubmission, N7AuthoritativeInspection}
use hermes_nodescale.State.Reserve.{reserve_n7_projection, reserve_in}
use hermes_nodescale.State.Attempt.{outcome_view, record_attempt}
use hermes_nodescale.State.Recover.{recover_from_inspection}
use hermes_nodescale.State.Effects.Attempt.{attempt_in-effect}
use hermes_nodescale.State.Effects.Recover.{recover_in-effect}
use hermes_nodescale.State.Effects.Operations.{attempt_in-operations, recover_in-operations}
use hermes_nodescale.State.Effects.{Shows, projection_view-Shows}
use hermes_nodescale.State.History.Links.{IsLinked}
use hermes_nodescale.State.History.Named.{reserve_in-Names, attempt_in-Names, recover_in-Names}
use hermes_nodescale.Projection.Run.{World, Surroundings, Run, on_store, return}
use hermes_nodescale.Projection.Run.Hoare.{
  Ensures, Ensures-return, Ensures-lift, Ensures-transaction, Ensures-request, Ensures-bind,
  Ensures-before,
}
use hermes_nodescale.Projection.Reconcile.{
  N7ProjectionOutcome, settled_outcome, Task, attempt, dispatch, recover, read_back,
}
use hermes_nodescale.Projection.Safety.{
  HasAttempt, HasApplied, Fits, Holds, AllBacked, is_success, Backed, Honest, Attempts, Recovers,
  Reserves,
}

same_id : {a b : Uuid} → ◌≡◌ {A = Stored Uuid} (ok a) (ok b) → a ≡ b
same_id h = cc

same_row : {a b : ProjectionRow} → ◌≡◌ {A = Option ProjectionRow} (some a) (some b) → a ≡ b
same_row h = cc

module _ (crate : UuidCrate) (json : SerdeJson) (sha256 : List ℕ → List ℕ) (env : Surroundings)
    (k : Task) (Linked : Type 0) where
  named_after :
      (op : Text) (d : Uuid) (g : Generation) (s t : Store) (pid : Uuid)
      → t.operations ≡ s.operations
      → operation_projection op d g s ≡ ok pid
      → operation_projection op d g t ≡ ok pid
  unfolding operation_projection
  named_after op d g s t pid e h = rw e h

  -- A view of the projection that the task's operation names tells how the task stands.
  applied_of :
      (t : Store) (pid : Uuid) (view : N7ProjectionView)
      → operation_projection k.operation_id k.desired.device_id k.desired.projection_generation t
        ≡ ok pid
      → Shows pid t view
      → view.state ≡ applied
      → Holds json k t
      → HasApplied json k t
  applied_of t pid view named shown done
        (q, (op, network, device, generation, body), (p, row, named', there, (n, d, g, b, _, _))) =
      let same : p ≡ pid = same_id (sym named' ∙ rw (op, device, generation) named) in
      let e : row ≡ shown.row = same_row (sym there ∙ rw same shown.found) in
      (
        pid,
        row,
        named,
        rw (sym same) there,
        (n ∙ network, d ∙ device, g ∙ generation, b ∙ body),
        ap (λ (r : ProjectionRow). r.state) e ∙ sym shown.state ∙ done,
      )

  pub attempt-Attempts :
      (revision : ℕ)
      → Ensures
          (Backed json k Linked)
          (attempt crate json sha256 env k revision)
          (Attempts json k Linked)
          (Backed json k Linked)
  unfolding attempt record_attempt
  attempt-Attempts revision =
      Ensures-transaction env _
        (λ w n now fresh outcome t backed h.
          let (pid, named, (shown, _)) = (attempt_in-effect _ w.store).at (outcome, t) h in
          let same = (attempt_in-operations _ w.store).at (outcome, t) h in
          let still = named_after _ _ _ w.store t pid same named in
          let holds : Linked → Holds json k t = λ l.
            let (q, fits, names) = backed.1 l in
            (q, fits, (attempt_in-Names sha256 _ q w.store names).at (outcome, t) h) in
          (
            (backed.0, holds),
            λ e. (pid, shown.row, still, shown.found, sym shown.state ∙ e),
            λ e l. applied_of t pid (outcome_view outcome) still shown e (holds l),
          ))
        (λ w n backed. backed)

  pub dispatch-Backed :
      Ensures
        (λ w. Backed json k Linked w × HasAttempt k w.store)
        (dispatch crate json sha256 env k)
        (λ _. (Backed json k Linked))
        (Backed json k Linked)
  unfolding dispatch
  dispatch-Backed =
      Ensures-bind {Q = λ _. (Backed json k Linked)} _ _
        (Ensures-request _ _ λ w (backed, tried). (((refl, tried), backed.0), backed.1))
        λ answer. Ensures-return _ λ w backed. backed

  pub read_back-Backed :
      Ensures
        (Backed json k Linked)
        (read_back crate json sha256 env k)
        (λ _. (Backed json k Linked))
        (Backed json k Linked)
  unfolding read_back
  read_back-Backed =
      Ensures-bind {Q = λ _. (Backed json k Linked)} _ _
        (Ensures-request _ _ λ w backed. ((tt, backed.0), backed.1))
        λ answer. Ensures-lift _ (λ a w _ backed. backed) λ w backed. backed

  pub recover-Recovers :
      (revision : ℕ) (i : N7AuthoritativeInspection)
      → Ensures
          (Backed json k Linked)
          (recover crate json sha256 env k revision i)
          (Recovers json k Linked)
          (Backed json k Linked)
  unfolding recover recover_from_inspection
  recover-Recovers revision i =
      Ensures-transaction env _
        (λ w n now fresh view t backed h.
          let (pid, named, (shown, _)) = (recover_in-effect sha256 _ w.store).at (view, t) h in
          let same = (recover_in-operations sha256 _ w.store).at (view, t) h in
          let still = named_after _ _ _ w.store t pid same named in
          let holds : Linked → Holds json k t = λ l.
            let (q, fits, names) = backed.1 l in
            (q, fits, (recover_in-Names sha256 _ q w.store names).at (view, t) h) in
          ((backed.0, holds), λ e l. applied_of t pid view still shown e (holds l)))
        (λ w n backed. backed)

  pub not_success :
      (o : N7ProjectionOutcome)
      → is_success o ≡ false
      → Ensures (Backed json k Linked) (return o) (Honest json k Linked) (Backed json k Linked)
  not_success o h = Ensures-return o λ w backed. (backed, λ e. absurd (cc (sym h ∙ e)))

  -- The record decides what the driver reports.
  pub settled-Honest :
      (st : N7ProjectionState) (view : N7ProjectionView) (other : Run N7ProjectionOutcome)
      → view.state ≡ st
      → Ensures (Backed json k Linked) other (Honest json k Linked) (Backed json k Linked)
      → Ensures
          ((Recovers json k Linked) view)
          (settled_outcome crate json sha256 env st other)
          (Honest json k Linked)
          (Backed json k Linked)
  settled-Honest applied view other e h = Ensures-return _ λ w (backed, done). (backed, λ _. done e)
  settled-Honest conflicted view other e h =
      Ensures-return _ λ w (backed, done). (backed, λ x. absurd (cc x))
  settled-Honest desired view other e h = Ensures-before other h λ w p. p.0
  settled-Honest attempted view other e h = Ensures-before other h λ w p. p.0

  named_for :
      (q : N7ProjectionSubmission)
      → Fits json k q
      → (t : Store) (pid : Uuid)
      → operation_projection q.operation_id q.device_id q.generation t ≡ ok pid
      → operation_projection k.operation_id k.desired.device_id k.desired.projection_generation t
        ≡ ok pid
  named_for q (op, network, device, generation, body) t pid h =
      rw (sym op, sym device, sym generation) h

  -- Before the reservation.
  abbrev pub Start : World → Type 0
  Start w = AllBacked k w.trace × (Linked → IsLinked w.store)

  pub reserve-Reserves :
      (q : N7ProjectionSubmission)
      → Fits json k q
      → Ensures Start
          (on_store env λ now fresh. reserve_n7_projection fresh q now)
          (Reserves json k Linked)
          (λ w. AllBacked k w.trace)
  unfolding reserve_n7_projection
  reserve-Reserves q fits =
      Ensures-transaction env (λ now fresh. reserve_in fresh q now)
        (λ w n now fresh outcome t start h.
          let names : (l : Linked) → _ =
            λ l. (reserve_in-Names sha256 fresh q now w.store (start.1 l)).at (outcome, t) h in
          (
            start.0,
            λ view e.
                let holds : Linked → Holds json k t = λ l. (q, fits, (names l view e).3) in
                (
                  (start.0, holds),
                  λ done l.
                      let (pid, named, shown, _) = names l view e in
                      applied_of t pid view (named_for q fits t pid named)
                        ((projection_view-Shows pid t).at view shown) done (holds l),
                ),
          ))
        (λ w n start. start.0)
