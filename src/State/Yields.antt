-- ===== src/State/Yields.antt =====
-- What a fallible computation returns, one rule for each way to build one.
use hermes_nodescale.Prelude.{
  ◌≡◌, refl, Bool, true, false, Option, none, some, ok, err, ◌>>=◌, ◌>>◌, fail_if, ok_or,
  if_let_some, if◌then◌else◌,
}
use mathlib.Core.Path.{subst}
use hermes_nodescale.State.Submission.{Stored, StateError}

-- If `m` returns Ok, it returns a value with `P`.
pub record Yields {A : Type 0} (P : A → Type 0) (m : Stored A) : Type 0 where
  pub at : (a : A) → m ≡ ok a → P a

unwrap : {A : Type 0} (a b : A) → ◌≡◌ {A = Stored A} (ok a) (ok b) → a ≡ b
unwrap a b h = cc

module _ {A : Type 0} {P : A → Type 0} where
  pub Yields-ok : (a : A) → P a → Yields P (ok a)
  Yields-ok a p = record { at = λ b h. subst P (unwrap a b h) p }

  pub Yields-err : (e : StateError) → Yields P (err e)
  Yields-err e = record { at = λ b h. absurd (cc h) }

  pub Yields-if :
      (b : Bool) (m n : Stored A)
      → (b ≡ true → Yields P m)
      → (b ≡ false → Yields P n)
      → Yields P (if b then m else n)
  Yields-if true m n km kn = km refl
  Yields-if false m n km kn = kn refl

  pub Yields-if_let_some :
      {B : Type 0} (o : Option B) (f : B → Stored A) (z : Stored A)
      → ((b : B) → o ≡ some b → Yields P (f b))
      → (o ≡ none → Yields P z)
      → Yields P (if_let_some o f z)
  Yields-if_let_some (some b) f z kf kz = kf b refl
  Yields-if_let_some none f z kf kz = kz refl

  -- the rest may use what the first step returned
  pub Yields-bind :
      {B : Type 0} (m : Stored B) (k : B → Stored A)
      → ((b : B) → m ≡ ok b → Yields P (k b))
      → Yields P (m >>= k)
  Yields-bind (ok b) k h = h b refl
  Yields-bind (err e) k h = Yields-err e

  -- `ok_or`, and then the rest
  pub Yields-ok_or :
      {B : Type 0} (o : Option B) (e : StateError) (k : B → Stored A)
      → ((b : B) → o ≡ some b → Yields P (k b))
      → Yields P (ok_or o e >>= k)
  Yields-ok_or (some b) e k h = h b refl
  Yields-ok_or none e k h = Yields-err e

  -- a check, and then the rest
  pub Yields-fail_if :
      (b : Bool) (e : StateError) (k : Stored A)
      → (b ≡ false → Yields P k)
      → Yields P (fail_if b e >> k)
  Yields-fail_if true e k h = Yields-err e
  Yields-fail_if false e k h = h refl

pub Yields-weaken :
    {A : Type 0} {P Q : A → Type 0} (m : Stored A) → Yields P m → ((a : A) → P a → Q a) → Yields Q m
Yields-weaken m y f = record { at = λ a h. f a (y.at a h) }

pub ruleset yields_rules = (Yields-err, Yields-if, Yields-if_let_some, Yields-bind)
