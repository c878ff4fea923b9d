-- ===== src/Projection/Run/Sends.antt =====
-- How many requests a run sends to Fleet, one rule for each way to build one.
use hermes_nodescale.Prelude.{
  ℕ, ◌+◌, ◌≤◌, Bool, true, false, List, [], ◌∷◌, Result, ok, err, arith, length, if◌then◌else◌,
}
use hermes_nodescale.Domain.Identifier.{Uuid}
use hermes_nodescale.State.Rows.{Time, Store}
use hermes_nodescale.State.Submission.{StateError}
use hermes_nodescale.Projection.Document.{N7ProductionError, Produced}
use hermes_nodescale.Projection.Run.{
  Request, send_apply, Event, World, Surroundings, Run, return, fail, lift, on_store, request,
  continue, ◌>>=◌,
}

abbrev pub is_apply : Request → ℕ
is_apply (send_apply _) = 1
is_apply _ = 0

-- The number of apply requests sent.
abbrev pub applies : List Event → ℕ
applies [] = 0
applies (e ∷ es) = is_apply e.request + applies es

-- A run sends at most `a` apply requests, and at most `n` requests in all.
pub record Sends {A : Type 0} (a n : ℕ) (m : Run A) : Type 0 where
  pub applied : (w : World) → applies (m w).1.trace ≤ a + applies w.trace
  pub total : (w : World) → length (m w).1.trace ≤ n + length w.trace

module _ {A : Type 0} (a n : ℕ) where
  pub Sends-return : (x : A) → Sends a n (return x)
  unfolding return
  Sends-return x = record { applied = λ w. omega arith; total = λ w. omega arith }

  pub Sends-fail : (e : N7ProductionError) → Sends a n (fail {A = A} e)
  unfolding fail
  Sends-fail e = record { applied = λ w. omega arith; total = λ w. omega arith }

  pub Sends-lift : (r : Produced A) → Sends a n (lift r)
  unfolding lift
  Sends-lift r = record { applied = λ w. omega arith; total = λ w. omega arith }

  pub Sends-on_store :
      (env : Surroundings) (call : Time → Uuid → Store → Result StateError A × Store)
      → Sends a n (on_store env call)
  unfolding on_store
  Sends-on_store env call = record { applied = λ w. omega arith; total = λ w. omega arith }

  pub Sends-if :
      (b : Bool) (m k : Run A) → Sends a n m → Sends a n k → Sends a n (if b then m else k)
  Sends-if true m k h h' = h
  Sends-if false m k h h' = h'

pub Sends-request :
    {A : Type 0} (q : Request) (answer : ℕ → A) → Sends (is_apply q) 1 (request q answer)
unfolding request
Sends-request q answer = record { applied = λ w. omega arith; total = λ w. omega arith }

continued :
    {A B : Type 0} (a n : ℕ) (r : Produced A) (w : World) (k : A → Run B)
    → ((x : A) → Sends a n (k x))
    → (applies (continue r k w).1.trace ≤ a + applies w.trace)
      × (length (continue r k w).1.trace ≤ n + length w.trace)
continued a n (ok x) w k h = ((h x).applied w, (h x).total w)
continued a n (err e) w k h = (omega arith, omega arith)

pub Sends-bind :
    {A B : Type 0} (a b i j : ℕ) (m : Run A) (k : A → Run B)
    → Sends a i m
    → ((x : A) → Sends b j (k x))
    → Sends (a + b) (i + j) (m >>= k)
unfolding ◌>>=◌
Sends-bind a b i j m k h h' = record {
  applied = λ w. let (r, w') = m w in omega (arith, h.applied w, (continued b j r w' k h').0);
  total = λ w. let (r, w') = m w in omega (arith, h.total w, (continued b j r w' k h').1);
}
