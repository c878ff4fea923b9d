-- ===== src/Projection/Safety/Branches.antt =====
-- crates/nodescale-projection/src/lib.rs: the driver's branches.
use hermes_nodescale.Prelude.{
  ℕ, ◌≡◌, refl, Bool, true, false, Option, some, not, List, arith, if◌then◌else◌,
}
use hermes_nodescale.Json.{SerdeJson}
use hermes_nodescale.Domain.Identifier.{UuidCrate}
use hermes_nodescale.State.Rows.{
  desired, attempted, applied, conflicted, N7ProjectionState, state_eq, N7ProjectionView,
}
use hermes_nodescale.State.Submission.{N7AuthoritativeInspection, missing, unavailable, observed}
use hermes_nodescale.State.Reserve.{ReservationOutcome, reserved, replayed}
use hermes_nodescale.State.Attempt.{AttemptOutcome, outcome_view}
use hermes_nodescale.Projection.Run.{Surroundings, Run, return, ◌>>=◌}
use hermes_nodescale.Projection.Run.Hoare.{
  Ensures, Ensures-return, Ensures-fail, Ensures-lift, Ensures-request, Ensures-if, Ensures-bind,
  Ensures-before, Ensures-after,
}
use hermes_nodescale.Projection.Reconcile.{
  N7ProjectionOutcome, retryable, Task, dispatch, retry, recover_after_retry, by_inspection,
  inspect_and_recover, first_dispatch, by_attempted_state, first_attempt, by_reserved_state,
  after_reservation, ensure_capabilities,
}
use hermes_nodescale.Projection.Safety.{
  AllBacked, HasAttempt, Backed, Honest, Attempts, Recovers, Reserves, Reports,
}
use hermes_nodescale.Projection.Safety.Steps.{
  attempt-Attempts, dispatch-Backed, read_back-Backed, recover-Recovers, not_success,
  settled-Honest,
}

state_eq-true : (a b : N7ProjectionState) → state_eq a b ≡ true → a ≡ b
state_eq-true a b h = ground arith

module _ (crate : UuidCrate) (json : SerdeJson) (sha256 : List ℕ → List ℕ) (env : Surroundings)
    (k : Task) (Linked : Type 0) where
  pub recover_after_retry-Honest :
      (revision : ℕ)
      → Ensures
          (Backed json k Linked)
          (recover_after_retry crate json sha256 env k revision)
          (Honest json k Linked)
          (Backed json k Linked)
  unfolding recover_after_retry
  recover_after_retry-Honest revision =
      Ensures-bind _ _ (read_back-Backed crate json sha256 env k Linked) λ i.
        Ensures-bind _ _ (recover-Recovers crate json sha256 env k Linked revision i) λ view.
          settled-Honest crate json sha256 env k Linked view.state view _ refl
            (not_success crate json sha256 env k Linked retryable refl)

  -- Behind an attempt that the store holds, an apply may be sent.
  pub sent-Honest :
      (next : Run N7ProjectionOutcome)
      → Ensures (Backed json k Linked) next (Honest json k Linked) (Backed json k Linked)
      → Ensures
          (λ w. Backed json k Linked w × HasAttempt k w.store)
          (dispatch crate json sha256 env k >>= λ reached.
            if reached then next else return retryable)
          (Honest json k Linked)
          (Backed json k Linked)
  sent-Honest next h = Ensures-bind _ _ (dispatch-Backed crate json sha256 env k Linked) λ reached.
      Ensures-if reached _ _ (λ _. h) λ _. not_success crate json sha256 env k Linked retryable refl

  pub retry-Honest :
      (revision : ℕ)
      → Ensures
          (Backed json k Linked)
          (retry crate json sha256 env k revision)
          (Honest json k Linked)
          (Backed json k Linked)
  unfolding retry
  retry-Honest revision =
      Ensures-bind _ _ (attempt-Attempts crate json sha256 env k Linked revision) λ outcome.
        Ensures-if (not (state_eq (outcome_view outcome).state attempted)) _ _
          (λ _. Ensures-fail _ λ w p. p.0)
          λ stands.
            Ensures-before _ (sent-Honest _ (recover_after_retry-Honest _))
              λ w p. (p.0, p.1 (state_eq-true _ attempted (ground arith)))

  pub by_inspection-Honest :
      (revision : ℕ) (allowed : Bool) (i : N7AuthoritativeInspection)
      → Ensures
          (Backed json k Linked)
          (by_inspection crate json sha256 env k revision allowed i)
          (Honest json k Linked)
          (Backed json k Linked)
  unfolding by_inspection
  by_inspection-Honest revision allowed unavailable =
      not_success crate json sha256 env k Linked retryable refl
  by_inspection-Honest revision allowed missing =
      Ensures-if allowed _ _ (λ _. retry-Honest revision)
        λ _. not_success crate json sha256 env k Linked retryable refl
  by_inspection-Honest revision allowed (observed _ _) =
      not_success crate json sha256 env k Linked retryable refl

  pub inspect_and_recover-Honest :
      (view : N7ProjectionView) (allowed : Bool)
      → Ensures
          (Backed json k Linked)
          (inspect_and_recover crate json sha256 env k view allowed)
          (Honest json k Linked)
          (Backed json k Linked)
  unfolding inspect_and_recover
  inspect_and_recover-Honest view allowed =
      Ensures-bind _ _ (read_back-Backed crate json sha256 env k Linked) λ i.
        Ensures-bind _ _ (recover-Recovers crate json sha256 env k Linked view.revision i)
          λ recovered.
            settled-Honest crate json sha256 env k Linked recovered.state recovered _ refl
              (by_inspection-Honest _ allowed i)

  pub by_attempted_state-Honest :
      (st : N7ProjectionState) (outcome : AttemptOutcome)
      → (outcome_view outcome).state ≡ st
      → Ensures
          ((Attempts json k Linked) outcome)
          (by_attempted_state crate json sha256 env st k (outcome_view outcome))
          (Honest json k Linked)
          (Backed json k Linked)
  unfolding by_attempted_state first_dispatch
  by_attempted_state-Honest applied outcome e = Ensures-return _ λ w p. (p.0, λ _. p.2 e)
  by_attempted_state-Honest conflicted outcome e =
      Ensures-before _ (not_success crate json sha256 env k Linked _ refl) λ w p. p.0
  by_attempted_state-Honest desired outcome e = Ensures-fail _ λ w p. p.0
  by_attempted_state-Honest attempted outcome e =
      Ensures-before _ (sent-Honest _ (inspect_and_recover-Honest _ false)) λ w p. (p.0, p.1 e)

  pub first_attempt-Honest :
      (view : N7ProjectionView)
      → Ensures
          (Backed json k Linked)
          (first_attempt crate json sha256 env k view)
          (Honest json k Linked)
          (Backed json k Linked)
  unfolding first_attempt
  first_attempt-Honest view =
      Ensures-bind _ _ (attempt-Attempts crate json sha256 env k Linked view.revision)
        λ outcome. by_attempted_state-Honest _ outcome refl

  pub capabilities-Backed :
      Ensures
        (Backed json k Linked)
        (ensure_capabilities env)
        (λ _. (Backed json k Linked))
        (Backed json k Linked)
  unfolding ensure_capabilities
  capabilities-Backed =
      Ensures-bind {Q = λ _. (Backed json k Linked)} _ _
        (Ensures-request _ _ λ w backed. ((tt, backed.0), backed.1))
        λ answer.
          Ensures-bind {Q = λ _. (Backed json k Linked)} _ _
            (Ensures-lift _ (λ a w _ backed. backed) λ w backed. backed)
            λ supported.
              Ensures-if supported _ _ (λ _. Ensures-return _ λ w backed. backed)
                λ _. Ensures-fail _ λ w backed. backed

  pub by_reserved_state-Honest :
      (st : N7ProjectionState) (view : N7ProjectionView)
      → view.state ≡ st
      → Ensures
          ((Recovers json k Linked) view)
          (by_reserved_state crate json sha256 env st k view)
          (Honest json k Linked)
          (Backed json k Linked)
  unfolding by_reserved_state
  by_reserved_state-Honest applied view e = Ensures-return _ λ w p. (p.0, λ _. p.1 e)
  by_reserved_state-Honest conflicted view e =
      Ensures-before _ (not_success crate json sha256 env k Linked _ refl) λ w p. p.0
  by_reserved_state-Honest desired view e =
      Ensures-before _ (Ensures-bind _ _ capabilities-Backed λ _. first_attempt-Honest view)
        λ w p. p.0
  by_reserved_state-Honest attempted view e =
      Ensures-before _
        (Ensures-bind _ _ capabilities-Backed λ _. inspect_and_recover-Honest view true) λ w p. p.0

  shown :
      (view : N7ProjectionView)
      → Ensures
          (λ w.
            AllBacked k w.trace
            × ((v : N7ProjectionView)
                → ◌≡◌ {A = Option N7ProjectionView} (some view) (some v)
                → Recovers json k Linked v w))
          (by_reserved_state crate json sha256 env view.state k view)
          (Reports json k Linked)
          (λ w. AllBacked k w.trace)
  shown view =
      Ensures-after _
        (Ensures-before _ (by_reserved_state-Honest view.state view refl) λ w p. p.1 view refl)
        (λ o w p. (p.0.0, p.1)) λ w p. p.0

  pub after_reservation-Reports :
      (outcome : ReservationOutcome)
      → Ensures
          ((Reserves json k Linked) outcome)
          (after_reservation crate json sha256 env k outcome)
          (Reports json k Linked)
          (λ w. AllBacked k w.trace)
  unfolding after_reservation
  after_reservation-Reports ReservationOutcome.conflict =
      Ensures-return _ λ w p. (p.0, λ e. absurd (cc e))
  after_reservation-Reports (reserved view) = shown view
  after_reservation-Reports (replayed view) = shown view
