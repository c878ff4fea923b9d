-- ===== src/Domain/JoinSession/Examples.antt =====
-- The properties of N4 join sessions at concrete calls.
use hermes_nodescale.Prelude.{◌≡◌, ◌≢◌, refl, false, List, [], ◌∷◌, ◌++◌, none, ok}
use hermes_nodescale.Domain.Lifecycle.{transition}
use hermes_nodescale.Domain.Lifecycle.Join.{
  join_lifecycle, created, invitation_validated, provider_credential_issuing,
  provider_credential_issued, provider_credential_revocation_pending, mesh_join_observed, expired,
  revoked,
}
use hermes_nodescale.Domain.JoinSession.{
  JoinSession, n4a, is_future_state, new_n4_session, transition_session, advance_n4,
}
use hermes_nodescale.Domain.JoinSession.N4.{
  Move, transitions, advances, step, run, n4_stops_at_credential, n4_leaves_by_revocation,
}

abbrev fresh : JoinSession
fresh = record {
  join_session_id = 1;
  invitation_id = 2;
  network_id = 3;
  device_id = none;
  state = created;
  created_at = 100;
  expires_at = 200;
  updated_at = 100;
  failure_reason = none;
  workflow = n4a;
}

fresh_is_new : new_n4_session 1 2 3 100 200 ≡ ok fresh
unfolding new_n4_session
fresh_is_new = refl

-- All the way to the credential, and then past it.
abbrev joining : List Move
joining =
    advances invitation_validated 110
    ∷ advances provider_credential_issuing 120
    ∷ advances provider_credential_issued 130
    ∷ transitions mesh_join_observed 140
    ∷ []

n4_stops_at_credential_example : is_future_state (run fresh joining).state ≡ false
n4_stops_at_credential_example = n4_stops_at_credential 1 2 3 100 200 fresh joining fresh_is_new

-- An attempt to expire the session, then the revocation of its credential.
abbrev leaving : List Move
leaving =
    transitions expired 150
    ∷ advances provider_credential_revocation_pending 160
    ∷ advances revoked 170
    ∷ []

abbrev issued : JoinSession
issued = record fresh { state = provider_credential_issued; updated_at = 130 }

issued_leaves : (run issued leaving).state ≢ provider_credential_issued
unfolding run step transition_session advance_n4 transition
issued_leaves h = cc

n4_leaves_by_revocation_example :
    (before : List Move) × (m : Move) × (after : List Move) × (leaving ≡ before ++ m ∷ after)
    × ((run issued before).state ≡ provider_credential_issued)
    × ((step (run issued before) m).state ≡ provider_credential_revocation_pending)
n4_leaves_by_revocation_example = n4_leaves_by_revocation issued leaving refl refl issued_leaves
