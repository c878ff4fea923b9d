-- ===== src/Projection/Run.antt =====
-- crates/nodescale-projection/src/lib.rs: the world of the driver. Fleet (`FleetProjectionTransport`),
-- the clock and the random identifiers answer by the number of requests made so far, in any way; each
-- request to Fleet is kept with the store that was durable when it was sent.
pub mod Hoare
pub mod Sends
use hermes_nodescale.Prelude.{ℕ, ◌+◌, List, [], ◌∷◌, Option, Result, ok, err, length}
use hermes_nodescale.Text.{Text}
use hermes_nodescale.FleetClient.{
  RequestKind, ProjectionDocument, ApplyOutcome, ApplyError, GeneratedState, FleetClientError,
}
use hermes_nodescale.Domain.Identifier.{Uuid}
use hermes_nodescale.State.Rows.{Time, Store}
use hermes_nodescale.State.Submission.{StateError}
use hermes_nodescale.Projection.Document.{N7ProductionError, Produced, state_error}

pub data Request : Type 0 where
  ask_capabilities : Request
  send_apply : ProjectionDocument → Request
  ask_inspect : Text → Text → Request

pub record Event : Type 0 where
  pub request : Request
  pub durable : Store

pub record World : Type 0 where
  pub store : Store
  pub writes : ℕ
  pub trace : List Event

pub record Surroundings : Type 0 where
  pub capabilities : ℕ → Result FleetClientError (List RequestKind)
  pub apply : ℕ → ProjectionDocument → Result ApplyError ApplyOutcome
  pub inspect : ℕ → Text → Text → Result FleetClientError (Option GeneratedState)
  pub clock : ℕ → Time
  pub new_v4 : ℕ → Uuid

-- A computation returns or fails, and what it did before it failed stays done.
abbrev pub Run : Type 0 → Type 0
Run A = World → Produced A × World

module _ {A : Type 0} where
  pub return : A → Run A
  return a w = (ok a, w)

  pub fail : N7ProductionError → Run A
  fail e w = (err e, w)

  pub lift : Produced A → Run A
  lift r w = (r, w)

  -- One call of the store, at a time and with a new identifier.
  pub on_store : Surroundings → (Time → Uuid → Store → Result StateError A × Store) → Run A
  on_store env call w =
      let (r, s) = call (env.clock w.writes) (env.new_v4 w.writes) w.store in
      (state_error r, record w { store = s; writes = w.writes + 1 })

  -- One request to Fleet, and the answer.
  pub request : Request → (ℕ → A) → Run A
  request q answer w = (
    ok (answer (length w.trace)),
    record w { trace = record { request = q; durable = w.store } ∷ w.trace },
  )

module _ {A B : Type 0} where
  abbrev pub continue : Produced A → (A → Run B) → Run B
  continue (ok a) f w = f a w
  continue (err e) f w = (err e, w)

  infixl 10 ◌>>=◌ ◌>>◌
  unfoldable pub ◌>>=◌ : Run A → (A → Run B) → Run B
  unfolding return fail lift on_store request
  ◌>>=◌ m f w = let (r, w') = m w in continue r f w'

  abbrev pub ◌>>◌ : Run A → Run B → Run B
  m >> n = m >>= λ _. n
