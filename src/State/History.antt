-- ===== src/State/History.antt =====
-- crates/nodescale-state/src/n7.rs: the operations on Fleet projections in any sequence, each with
-- any arguments, among changes of the tables that other code owns.
pub mod Change
pub mod Moves
pub mod Lifelong
pub mod Numbers
pub mod Evidence
pub mod Settlement
pub mod Subjects
pub mod Links
pub mod Named
pub mod Attempted
use hermes_nodescale.Prelude.{ℕ, List, [], ◌∷◌}
use hermes_nodescale.Domain.Identifier.{Uuid}
use hermes_nodescale.State.Submission.{N7ProjectionSubmission}
use hermes_nodescale.State.Rows.{Time, Store, BindingRow, DeviceRow, GenerationRow}
use hermes_nodescale.State.Reserve.{reserve_n7_projection}
use hermes_nodescale.State.Attempt.{AttemptRequest, record_attempt}
use hermes_nodescale.State.Recover.{RecoverRequest, recover_from_inspection}

pub data Command : Type 0 where
  reserve : Uuid → N7ProjectionSubmission → Time → Command
  attempt : AttemptRequest → Command
  recover : RecoverRequest → Command
  elsewhere : List BindingRow → List DeviceRow → List GenerationRow → Command

abbrev pub empty_store : Store
empty_store = record {
  records = [];
  operations = [];
  attempts = [];
  inspections = [];
  audit = [];
  bindings = [];
  devices = [];
  device_generations = [];
}

module _ (sha256 : List ℕ → List ℕ) where
  unfoldable pub exec : Command → Store → Store
  exec (reserve pid q now) s = (reserve_n7_projection pid q now s).1
  exec (attempt q) s = (record_attempt q s).1
  exec (recover q) s = (recover_from_inspection sha256 q s).1
  exec (elsewhere bindings devices generations) s = record s {
    bindings = bindings;
    devices = devices;
    device_generations = generations;
  }

  unfoldable pub run : List Command → Store → Store
  run [] s = s
  run (c ∷ cs) s = run cs (exec c s)

  -- What every command keeps, every sequence of them keeps.
  pub run-keeps :
      (P : Store → Type 0)
      → ((c : Command) (s : Store) → P s → P (exec c s))
      → (cs : List Command) (s : Store) → P s
      → P (run cs s)
  unfolding run
  run-keeps P step [] s h = h
  run-keeps P step (c ∷ cs) s h = run-keeps P step cs (exec c s) (step c s h)
