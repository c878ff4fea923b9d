-- ===== src/Domain/JoinSession/N4.antt =====
-- crates/nodescale-domain/src/lib.rs: sequences of calls of `JoinSession::transition` and
-- `advance_n4`.
use hermes_nodescale.Prelude.{
  ℕ, ◌≡◌, ◌≢◌, ◌⊎◌, inl, inr, refl, ap, true, false, List, [], ◌∷◌, ◌++◌, ok, err, arith, is_ok,
  ◌↔◌,
}
use hermes_nodescale.Domain.Error.{Checked}
use hermes_nodescale.Domain.Binding.{Time}
use hermes_nodescale.Domain.Lifecycle.{transition}
use hermes_nodescale.Domain.Lifecycle.Join.{
  JoinSessionState, provider_credential_issued, provider_credential_revocation_pending,
}
use hermes_nodescale.Domain.JoinSession.{
  JoinSession, n4a, is_future_state, new_n4_session, transition_session, advance_n4, is_n4_state,
  is_n4_next,
}

-- A call of one of the two methods.
pub data Move : Type 0 where
  transitions advances : JoinSessionState → Time → Move

-- A refused call leaves the session as it was.
abbrev settle : JoinSession → Checked JoinSession → JoinSession
settle s (ok s') = s'
settle s (err _) = s

unfoldable pub step : JoinSession → Move → JoinSession
step s (transitions next now) = settle s (transition_session s next now)
step s (advances next now) = settle s (advance_n4 s next now)

unfoldable pub run : JoinSession → List Move → JoinSession
run s [] = s
run s (m ∷ ms) = run (step s m) ms

step_n4 :
    (s : JoinSession) (m : Move)
    → s.workflow ≡ n4a
    → ((step s m).workflow ≡ n4a)
      × (is_future_state s.state ≡ false → is_future_state (step s m).state ≡ false)
      × (s.state ≡ provider_credential_issued
          → ((step s m).state ≡ provider_credential_issued)
            ⊎ ((step s m).state ≡ provider_credential_revocation_pending))
unfolding step transition_session advance_n4 transition
step_n4 s (transitions next now) h = ground arith
step_n4 s (advances next now) h = ground arith

run_not_future :
    (s : JoinSession) (ms : List Move)
    → s.workflow ≡ n4a
    → is_future_state s.state ≡ false
    → is_future_state (run s ms).state ≡ false
unfolding run
run_not_future s [] h f = f
run_not_future s (m ∷ ms) h f =
    let (w, keeps, _) = step_n4 s m h in run_not_future (step s m) ms w (keeps f)

-- A new N4 join session, whatever calls of `transition` and `advance_n4` are made on it and at
-- whatever times, never observes a mesh join, registers an agent, binds a Keryx peer, projects to
-- Fleet or becomes active.
pub n4_stops_at_credential :
    (id invitation network : ℕ) (now until : Time) (s : JoinSession) (ms : List Move)
    → new_n4_session id invitation network now until ≡ ok s
    → is_future_state (run s ms).state ≡ false
unfolding new_n4_session
n4_stops_at_credential id invitation network now until s ms h =
    run_not_future s ms (ground arith) (ground arith)

-- If calls of the two methods, at whatever times, take an N4 join session out of the state in
-- which its provider credential is issued, then one of the calls found it in that state and left
-- it waiting for the credential's revocation.
pub n4_leaves_by_revocation :
    (s : JoinSession) (ms : List Move)
    → s.workflow ≡ n4a
    → s.state ≡ provider_credential_issued
    → (run s ms).state ≢ provider_credential_issued
    → (before : List Move) × (m : Move) × (after : List Move) × (ms ≡ before ++ m ∷ after)
      × ((run s before).state ≡ provider_credential_issued)
      × ((step (run s before) m).state ≡ provider_credential_revocation_pending)
unfolding run
n4_leaves_by_revocation s [] h i left = absurd (left i)
n4_leaves_by_revocation s (m ∷ ms) h i left =
    let (w, _, leaves) = step_n4 s m h in
    elim (leaves i) [
      | inl still ↦
          let (before, n, after, e, stood, went) =
            n4_leaves_by_revocation (step s m) ms w still left in
          (m ∷ before, n, after, ap (λ t. m ∷ t) e, stood, went)
      | inr waits ↦ ([], m, ms, refl, i, waits)
    ]

-- `advance_n4` is `transition` on an N4 session that is at most waiting for its credential's
-- revocation, and an error on every other session.
advance_n4_exact :
    (s : JoinSession) (next : JoinSessionState) (now : Time)
    → (is_ok (advance_n4 s next now) ≡ true) ↔ (
        (is_ok (transition_session s next now) ≡ true)
        × (s.workflow ≡ n4a)
        × (is_n4_state s.state ≡ true)
        × (is_n4_next next ≡ true))
unfolding advance_n4
advance_n4_exact s next now = (λ h. ground arith, λ h. ground arith)
