-- ===== src/Domain/Error.antt =====
-- crates/nodescale-domain/src/lib.rs: `DomainError`.
use hermes_nodescale.Prelude.{ℕ, String, Result, ok, err}

pub data DomainError : Type 0 where
  invalid_value : String → String → DomainError
  invalid_transition : String → String → DomainError
  stale_generation : ℕ → ℕ → DomainError
  non_monotonic_generation : DomainError

-- `Result<A, DomainError>`
abbrev pub Checked : Type 0 → Type 0
Checked A = Result DomainError A

-- A refusal, or the panic of an `expect`.
pub data Failure : Type 0 where
  refused : DomainError → Failure
  panicked : String → Failure

abbrev pub Guarded : Type 0 → Type 0
Guarded A = Result Failure A

-- `?` on a result of the crate, where a panic is possible too
abbrev pub guarded : {A : Type 0} → Checked A → Guarded A
guarded (ok a) = ok a
guarded (err e) = err (refused e)
