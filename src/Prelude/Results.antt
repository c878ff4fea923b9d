-- ===== src/Prelude/Results.antt =====
-- Rust's `Result`, with the `?` operator as bind.
use mathlib.Core.Path.{◌≡◌, refl, ap}
use mathlib.Core.Logic.{◌↔◌, ◌⊎◌, inl, inr}
use mathlib.Core.Bool.{Bool, true, false}
use mathlib.Core.Option.{Option, none, some}

infixl 5 ◌>>=◌
infixl 5 ◌>>◌
-- The error type comes first, so that a component fixes it once.
pub data Result (E A : Type 0) : Type 0 where
  err : E → Result E A
  ok : A → Result E A

abbrev pub is_ok : {E A : Type 0} → Result E A → Bool
is_ok (err _) = false
is_ok (ok _) = true

-- `.map(|_| ())`
abbrev pub discard : {E A : Type 0} → Result E A → Result E (Unit {0})
discard (err reason) = err reason
discard (ok _) = ok tt

-- `Option::ok_or`
abbrev pub ok_or : {E A : Type 0} → Option A → E → Result E A
ok_or (some value) reason = ok value
ok_or none reason = err reason

-- `if let Some(value) = ...`, and what is done without a value
abbrev pub if_let_some : {A B : Type 0} → Option A → (A → B) → B → B
if_let_some (some value) found absent = found value
if_let_some none found absent = absent

-- `if bad { return Err(reason) }`
abbrev pub fail_if : {E : Type 0} → Bool → E → Result E (Unit {0})
fail_if bad reason = elim bad [ true ↦ err reason | false ↦ ok tt ]

-- `?`, and then the rest of the function
abbrev pub ◌>>=◌ : {E A B : Type 0} (first : Result E A) (rest : A → Result E B) → Result E B
err reason >>= rest = err reason
ok value >>= rest = rest value

-- `?` on a check, whose value is not used
abbrev pub ◌>>◌ : {E B : Type 0} (check : Result E (Unit {0})) (rest : Result E B) → Result E B
check >> rest = check >>= (λ _. rest)

-- A computation that succeeds has succeeded at its first step.
pub >>=-eq-ok :
    {E A B : Type 0} (first : Result E A) (rest : A → Result E B) {b : B}
    → (first >>= rest) ≡ ok b
    → (a : A) × (first ≡ ok a) × (rest a ≡ ok b)
>>=-eq-ok (err reason) rest h = cc
>>=-eq-ok (ok value) rest h = (value, refl, h)

pub discard-ok : {E A : Type 0} (m : Result E A) (a : A) → m ≡ ok a → discard m ≡ ok tt
discard-ok m a h = rw h

-- A sequence of checks passes if each passes, the later ones judged after the earlier.
pub seq_iff :
    {E : Type 0} {P Q : Type 0} (m k : Result E (Unit {0}))
    → (m ≡ ok tt) ↔ P
    → (P → (k ≡ ok tt) ↔ Q)
    → ((m >> k) ≡ ok tt) ↔ (P × Q)
seq_iff (ok u) k p q = (λ h. let first = p.0 refl in (first, (q first).0 h), λ h. (q h.0).1 h.1)
seq_iff (err e) k p q = (λ h. cc, λ h. absurd (cc (p.1 h.0)))

-- A check that passes may be left out.
pub seq_pass :
    {E : Type 0} {Q : Type 0} (m k : Result E (Unit {0}))
    → m ≡ ok tt
    → (k ≡ ok tt) ↔ Q
    → ((m >> k) ≡ ok tt) ↔ Q
seq_pass m k e q = rw e q

pub fail_if_iff : {E : Type 0} (b : Bool) (e : E) → (fail_if b e ≡ ok tt) ↔ (b ≡ false)
fail_if_iff true e = (λ h. cc, λ h. cc)
fail_if_iff false e = (λ _. refl, λ _. refl)

pub check-cases : {E : Type 0} (m : Result E (Unit {0})) → (m ≡ ok tt) ⊎ ((e : E) × (m ≡ err e))
check-cases (ok u) = inl refl
check-cases (err e) = inr (e, refl)

-- A value that is returned behind a check.
pub checked_value :
    {E A : Type 0} (m : Result E (Unit {0})) (a b : A)
    → ((m >>= λ _. ok a) ≡ ok b) ↔ ((m ≡ ok tt) × (a ≡ b))
checked_value (ok u) a b = (λ h. (refl, cc), λ h. ap ok h.1)
checked_value (err e) a b = (λ h. cc, λ h. cc)

-- A check before the rest of a computation.
pub bind_iff :
    {E A : Type 0} {P Q : Type 0} (m : Result E (Unit {0})) (k : Result E A) (a : A)
    → (m ≡ ok tt) ↔ P
    → (P → (k ≡ ok a) ↔ Q)
    → ((m >>= λ _. k) ≡ ok a) ↔ (P × Q)
bind_iff (ok u) k a p q = (λ h. let f = p.0 refl in (f, (q f).0 h), λ h. (q h.0).1 h.1)
bind_iff (err e) k a p q = (λ h. cc, λ h. absurd (cc (p.1 h.0)))
