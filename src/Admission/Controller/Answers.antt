-- ===== src/Admission/Controller/Answers.antt =====
-- crates/nodescale-redemption-ingress/src/lib.rs: one call of
-- `InMemoryAdmissionController::admit`, and what it does to the global bucket.
use hermes_nodescale.Prelude.{
  ℕ, ◌+◌, ◌-◌, ◌*◌, ◌≤◌, ◌≡◌, inl, inr, refl, ◌∙◌, max, arith, ltb, Bool-cases,
}
use mathlib.Core.Path.{subst}
use hermes_nodescale.Admission.Bucket.{
  AdmissionDecision, allowed, limited, Bucket, availability, debit,
}
use hermes_nodescale.Admission.Bucket.Laws.{
  IsSound, Refilled, availability-Refilled, availability-IsSound, availability-allowed, debit_exact,
}
use hermes_nodescale.Admission.Controller.{
  IpAddr, normalize_ip, Sources, Controller, evict_stale, Selected, tracked, overflowing, fresh,
  select, charge, conclude, admit,
}
use hermes_nodescale.Admission.Controller.Table.{IsValid}
use hermes_nodescale.Admission.Controller.Selection.{
  Ready, select-SelectsWell, evict-IsValid, charge-IsValid,
}

abbrev pub spent : AdmissionDecision → ℕ
spent allowed = 1
spent (limited _) = 0

-- What one decision does to the global bucket: a token that is spent or gained is paid for by the
-- bucket's clock.
pub record Charged (b b' : Bucket) (d : AdmissionDecision) (now : ℕ) : Type 0 where
  pub same_interval : b'.refill_interval ≡ b.refill_interval
  pub paid :
      (spent d + b'.tokens) * b.refill_interval + b.last_refill
      ≤ b.tokens * b.refill_interval + b'.last_refill
  pub forward : b.last_refill ≤ b'.last_refill
  pub not_ahead : b'.last_refill ≤ max b.last_refill now

pub record Answers (c : Controller) (now : ℕ) (r : Controller × AdmissionDecision) : Type 0 where
  pub same_limits : r.0.limits ≡ c.limits
  pub same_start : r.0.initialized_at ≡ c.initialized_at
  pub valid : IsValid r.0
  pub charged : Charged c.global r.0.global r.1 now

Ready-global :
    (c : Controller) (g : Bucket) (k : IpAddr) (s : Selected)
    → Ready c k s
    → Ready (record c { global = g }) k s
Ready-global c g k (tracked s) r = r
Ready-global c g k overflowing r = r
Ready-global c g k (fresh b) r = r

charge_keeps :
    (c : Controller) (k : IpAddr) (now : ℕ) (s : Selected)
    → ((charge c k now s).limits ≡ c.limits)
      × ((charge c k now s).initialized_at ≡ c.initialized_at)
      × ((charge c k now s).global ≡ debit c.global)
unfolding charge
charge_keeps c k now (tracked s) = (refl, refl, refl)
charge_keeps c k now overflowing = (refl, refl, refl)
charge_keeps c k now (fresh b) = (refl, refl, refl)

limited_is_free : (b : Bucket) (now n : ℕ) → Charged b b (limited n) now
limited_is_free b now n = ground arith

Refilled-is_free : (b b' : Bucket) (now n : ℕ) → Refilled b b' now → Charged b b' (limited n) now
Refilled-is_free b b' now n r = ground (arith, r)

-- An allowed request spends the token that the debit takes.
debited_is_paid :
    (b b' : Bucket) (now : ℕ)
    → Refilled b b' now
    → IsSound b'
    → 1 ≤ b'.tokens
    → Charged b (debit b') allowed now
debited_is_paid b b' now r sound one = rw (debit_exact b' sound one) (
    let e : 1 + (b'.tokens - 1) ≡ b'.tokens = omega arith in
    record {
      same_interval = r.same_interval;
      paid = rw e r.paid;
      forward = r.forward;
      not_ahead = r.not_ahead;
    })

conclude-Answers :
    (c : Controller) (k : IpAddr) (now : ℕ) (d : AdmissionDecision) (s : Selected)
    → IsValid c
    → (d ≡ allowed → Ready c k s)
    → Answers c now (conclude k now (c, d, s))
unfolding conclude
conclude-Answers c k now (limited n) s v r = record {
  same_limits = refl;
  same_start = refl;
  valid = v;
  charged = limited_is_free c.global now n;
}
conclude-Answers c k now allowed s v r = go (availability c.global now).1 refl
  where
    g : Bucket
    g = (availability c.global now).0

    filled : Refilled c.global g now
    filled = availability-Refilled c.global now v.global_sound

    sound : IsSound g
    sound = availability-IsSound c.global now v.global_sound

    c' : Controller
    c' = record c { global = g }

    valid' : IsValid c'
    valid' = record {
      accepted = v.accepted;
      global_sound = sound;
      overflow_sound = v.overflow_sound;
      sources_sound = v.sources_sound;
      bounded = v.bounded;
    }

    go :
        (d : AdmissionDecision)
        → (availability c.global now).1 ≡ d
        → Answers c now (conclude k now (c, allowed, s))
    go (limited n) e =
        rw (e, conclude)
          (record {
            same_limits = refl;
            same_start = refl;
            valid = valid';
            charged = Refilled-is_free c.global g now n filled;
          })
    go allowed e =
        let one : 1 ≤ g.tokens = availability-allowed c.global now e in
        let keeps = charge_keeps c' k now s in
        rw (e, conclude)
          (record {
            same_limits = keeps.0;
            same_start = keeps.1;
            valid = charge-IsValid c' k now s valid' one (Ready-global c g k s (r refl));
            charged = rw keeps.2 (debited_is_paid c.global g now filled sound one);
          })

evict_keeps :
    (iteration : Sources → Sources) (c : Controller) (k : IpAddr) (now : ℕ)
    → ((evict_stale iteration c k now).limits ≡ c.limits)
      × ((evict_stale iteration c k now).initialized_at ≡ c.initialized_at)
      × ((evict_stale iteration c k now).global ≡ c.global)
unfolding evict_stale
evict_keeps iteration c k now = ground arith

Answers-from :
    (c e : Controller) (now : ℕ) (r : Controller × AdmissionDecision)
    → e.limits ≡ c.limits
    → e.initialized_at ≡ c.initialized_at
    → e.global ≡ c.global
    → Answers e now r
    → Answers c now r
Answers-from c e now r l i g a = record {
  same_limits = a.same_limits ∙ l;
  same_start = a.same_start ∙ i;
  valid = a.valid;
  charged = subst (λ b. Charged b r.0.global r.1 now) g a.charged;
}

pub admit-Answers :
    (iteration : Sources → Sources) (c : Controller) (source : IpAddr) (now : ℕ)
    → IsValid c
    → Answers c now (admit iteration c source now)
unfolding admit
admit-Answers iteration c source now v = elim (Bool-cases (ltb now c.initialized_at)) [
  | inl early ↦
      rw (early, admit)
        (record {
          same_limits = refl;
          same_start = refl;
          valid = v;
          charged = limited_is_free c.global now c.limits.global_refill_interval;
        })
  | inr started ↦
      let k = normalize_ip source in
      let e = evict_stale iteration c k now in
      let (l, i, g) = evict_keeps iteration c k now in
      let w = select-SelectsWell e k now (evict-IsValid iteration c k now v) in
      let r = select e k now in
      rw (started, admit)
        (Answers-from c r.0 now _ (w.same_limits ∙ l) (w.same_start ∙ i) (w.same_global ∙ g)
          (conclude-Answers r.0 k now r.1 r.2 w.valid w.ready))
]
