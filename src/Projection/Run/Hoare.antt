-- ===== src/Projection/Run/Hoare.antt =====
-- What a run of the driver ensures, one rule for each way to build one: after a start in `P` it
-- returns a value with `Q`, or fails in `E`.
use hermes_nodescale.Prelude.{
  ℕ, ◌+◌, ◌≡◌, refl, Bool, true, false, ◌∷◌, Result, ok, err, length, if◌then◌else◌,
}
use hermes_nodescale.Domain.Identifier.{Uuid}
use hermes_nodescale.State.Rows.{Time, Store, transactional, commit_or_abort}
use hermes_nodescale.State.Submission.{StateError, Stored}
use hermes_nodescale.Projection.Document.{N7ProductionError, Produced, state_error}
use hermes_nodescale.Projection.Run.{
  World, Request, Surroundings, Run, return, fail, lift, on_store, request, continue, ◌>>=◌,
}

abbrev pub Ends :
    {A : Type 0} → (A → World → Type 0) → (World → Type 0) → Produced A → World → Type 0
Ends Q E (ok a) w = Q a w
Ends Q E (err e) w = E w

pub record Ensures {A : Type 0} (P : World → Type 0) (m : Run A) (Q : A → World → Type 0)
    (E : World → Type 0) : Type 0 where
  pub at : (w : World) → P w → Ends Q E (m w).0 (m w).1

lifted :
    {A : Type 0} (Q : A → World → Type 0) (E : World → Type 0) (r : Produced A) (w : World)
    → ((a : A) → r ≡ ok a → Q a w)
    → E w
    → Ends Q E r w
lifted Q E (ok a) w q e = q a refl
lifted Q E (err x) w q e = e

transacted :
    {A : Type 0} (Q : A → World → Type 0) (E : World → Type 0) (m : Stored (A × Store)) (w : World)
    (n : ℕ)
    → ((a : A) (t : Store) → m ≡ ok (a, t) → Q a (record w { store = t; writes = n }))
    → E (record w { writes = n })
    → Ends Q E
        (state_error (commit_or_abort m w.store).0)
        (record w { store = (commit_or_abort m w.store).1; writes = n })
transacted Q E (ok (a, t)) w n q e = q a t refl
transacted Q E (err x) w n q e = e

continued :
    {A B : Type 0} {E : World → Type 0} {Q : A → World → Type 0} {R : B → World → Type 0}
    (r : Produced A) (w : World) (k : A → Run B)
    → Ends Q E r w
    → ((a : A) → Ensures (Q a) (k a) R E)
    → Ends R E (continue r k w).0 (continue r k w).1
continued (ok a) w k h next = (next a).at w h
continued (err e) w k h next = h

module _ {A : Type 0} {P : World → Type 0} {Q : A → World → Type 0} {E : World → Type 0} where
  pub Ensures-return : (a : A) → ((w : World) → P w → Q a w) → Ensures P (return a) Q E
  unfolding return
  Ensures-return a h = record { at = h }

  pub Ensures-fail :
      (e : N7ProductionError) → ((w : World) → P w → E w) → Ensures P (fail {A = A} e) Q E
  unfolding fail
  Ensures-fail e h = record { at = h }

  pub Ensures-lift :
      (r : Produced A)
      → ((a : A) (w : World) → r ≡ ok a → P w → Q a w)
      → ((w : World) → P w → E w)
      → Ensures P (lift r) Q E
  unfolding lift
  Ensures-lift r q e = record { at = λ w p. lifted Q E r w (λ a h. q a w h p) (e w p) }

  pub Ensures-on_store :
      (env : Surroundings) (call : Time → Uuid → Store → Result StateError A × Store)
      → ((w : World) (now : Time) (fresh : Uuid)
          → P w
          → Ends Q E
              (state_error (call now fresh w.store).0)
              (record w { store = (call now fresh w.store).1; writes = w.writes + 1 }))
      → Ensures P (on_store env call) Q E
  unfolding on_store
  Ensures-on_store env call h = record {
    at = λ w p. h w (env.clock w.writes) (env.new_v4 w.writes) p;
  }

  -- A transaction: what was written is there if it returned, and nothing if it failed.
  pub Ensures-transaction :
      (env : Surroundings) (operation : Time → Uuid → Store → Stored (A × Store))
      → ((w : World) (n : ℕ) (now : Time) (fresh : Uuid) (a : A) (t : Store)
          → P w
          → operation now fresh w.store ≡ ok (a, t)
          → Q a (record w { store = t; writes = n }))
      → ((w : World) (n : ℕ) → P w → E (record w { writes = n }))
      → Ensures P (on_store env (λ now fresh. transactional (operation now fresh))) Q E
  unfolding transactional
  Ensures-transaction env operation q e = Ensures-on_store env _ λ w now fresh p.
      transacted Q E (operation now fresh w.store) w (w.writes + 1)
        (λ a t h. q w (w.writes + 1) now fresh a t p h) (e w (w.writes + 1) p)

  pub Ensures-request :
      (q : Request) (answer : ℕ → A)
      → ((w : World)
          → P w
          → Q
              (answer (length w.trace))
              (record w { trace = record { request = q; durable = w.store } ∷ w.trace }))
      → Ensures P (request q answer) Q E
  unfolding request
  Ensures-request q answer h = record { at = h }

  pub Ensures-if :
      (b : Bool) (m n : Run A)
      → (b ≡ true → Ensures P m Q E)
      → (b ≡ false → Ensures P n Q E)
      → Ensures P (if b then m else n) Q E
  Ensures-if true m n km kn = km refl
  Ensures-if false m n km kn = kn refl

module _ {A B : Type 0} {P E : World → Type 0} {Q : A → World → Type 0}
    {R : B → World → Type 0} where
  pub Ensures-bind :
      (m : Run A) (k : A → Run B)
      → Ensures P m Q E
      → ((a : A) → Ensures (Q a) (k a) R E)
      → Ensures P (m >>= k) R E
  unfolding ◌>>=◌
  Ensures-bind m k first next = record {
    at = λ w p. let (r, w') = m w in continued r w' k (first.at w p) next;
  }

-- A stronger start will do.
pub Ensures-before :
    {A : Type 0} {P P' E : World → Type 0} {Q : A → World → Type 0} (m : Run A)
    → Ensures P m Q E
    → ((w : World) → P' w → P w)
    → Ensures P' m Q E
Ensures-before m h f = record { at = λ w p. h.at w (f w p) }

ended :
    {A : Type 0} (Q Q' : A → World → Type 0) (E E' : World → Type 0) (r : Produced A) (w : World)
    → ((a : A) → Q a w → Q' a w)
    → (E w → E' w)
    → Ends Q E r w
    → Ends Q' E' r w
ended Q Q' E E' (ok a) w q e h = q a h
ended Q Q' E E' (err x) w q e h = e h

-- A weaker end will do.
pub Ensures-after :
    {A : Type 0} {P E E' : World → Type 0} {Q Q' : A → World → Type 0} (m : Run A)
    → Ensures P m Q E
    → ((a : A) (w : World) → Q a w → Q' a w)
    → ((w : World) → E w → E' w)
    → Ensures P m Q' E'
Ensures-after m h q e = record {
  at = λ w p. let (r, w') = m w in ended _ _ _ _ r w' (λ a. q a w') (e w') (h.at w p);
}

-- What the start knows beside the world.
pub Ensures-known :
    {A X : Type 0} {P E : World → Type 0} {Q : A → World → Type 0} (m : Run A)
    → (X → Ensures P m Q E)
    → Ensures (λ w. X × P w) m Q E
Ensures-known m h = record { at = λ w (x, p). (h x).at w p }
