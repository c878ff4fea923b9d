-- ===== src/State/Transaction.antt =====
-- crates/nodescale-state/src/lib.rs: `transactional`, which keeps what an operation wrote if it
-- returned Ok and nothing otherwise.
use hermes_nodescale.Prelude.{◌≡◌, refl, ap, ◌⊎◌, inl, inr, ok, err}
use hermes_nodescale.State.Submission.{Stored, StateError}
use hermes_nodescale.State.Rows.{Store, transactional, commit_or_abort}
use hermes_nodescale.State.Yields.{Yields}

pub outcome-cases :
    {A : Type 0} (m : Stored A) → ((e : StateError) × (m ≡ err e)) ⊎ ((a : A) × (m ≡ ok a))
outcome-cases (err e) = inl (e, refl)
outcome-cases (ok a) = inr (a, refl)

-- A transaction leaves the store that its operation returned, or the one that it was given.
pub transactional-keeps :
    {A : Type 0} (P : Store → Type 0) (operation : Store → Stored (A × Store)) (s : Store)
    → P s
    → Yields (λ r. P r.1) (operation s)
    → P (transactional operation s).1
unfolding transactional
transactional-keeps P operation s p y = elim (outcome-cases (operation s)) [
  | inl (e, h) ↦ rw (transactional, h) p
  | inr (r, h) ↦ rw (transactional, h) (y.at r h)
]

committed :
    {A : Type 0} (m : Stored (A × Store)) (s t : Store) (a : A)
    → commit_or_abort m s ≡ (ok a, t)
    → m ≡ ok (a, t)
committed (ok (b, u)) s t a h =
    let e : b ≡ a = cc (ap (λ r. r.0) h) in let f : u ≡ t = ap (λ r. r.1) h in rw (e, f) refl
committed (err e) s t a h = absurd (cc (ap (λ r. r.0) h))

-- A transaction that returned Ok ran an operation that did, and left the store of that.
pub transactional-ok :
    {A : Type 0} (operation : Store → Stored (A × Store)) (s t : Store) (a : A)
    → transactional operation s ≡ (ok a, t)
    → operation s ≡ ok (a, t)
unfolding transactional
transactional-ok operation s t a h = committed (operation s) s t a h

pub transactional-returns :
    {A : Type 0} (operation : Store → Stored (A × Store)) (s t : Store) (a : A)
    → operation s ≡ ok (a, t)
    → transactional operation s ≡ (ok a, t)
unfolding transactional
transactional-returns operation s t a h = rw (transactional, h) refl

pub transactional-fails :
    {A : Type 0} (operation : Store → Stored (A × Store)) (s : Store) (e : StateError)
    → operation s ≡ err e
    → transactional operation s ≡ (err e, s)
unfolding transactional
transactional-fails operation s e h = rw (transactional, h) refl
