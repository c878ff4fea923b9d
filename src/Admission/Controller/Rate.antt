-- ===== src/Admission/Controller/Rate.antt =====
-- crates/nodescale-redemption-ingress/src/lib.rs: sequences of calls of
-- `InMemoryAdmissionController::admit`.
use hermes_nodescale.Prelude.{ℕ, ◌+◌, ◌-◌, ◌*◌, ◌≤◌, ◌≡◌, List, [], ◌∷◌, arith}
use mathlib.Core.Path.{subst}
use native.Mathlib.Nat.{add-mul}
use hermes_nodescale.Admission.Limits.{AdmissionLimits}
use hermes_nodescale.Admission.Limits.Laws.{IsAccepted}
use hermes_nodescale.Admission.Controller.{IpAddr, Sources, Controller, new_controller, admit}
use hermes_nodescale.Admission.Controller.Table.{IsValid, new_controller-IsValid}
use hermes_nodescale.Admission.Controller.Answers.{spent, admit-Answers}

-- A request: its source, and the instant at which it is decided.
abbrev pub Request : Type 0
Request = IpAddr × ℕ

-- Every request decided by the instant `until`.
abbrev pub AllBy : ℕ → List Request → Type 0
AllBy until [] = Unit
AllBy until ((_, now) ∷ rs) = (now ≤ until) × AllBy until rs

module _ (iteration : Sources → Sources) where
  -- The controller after the requests, and how many of them were allowed.
  abbrev pub serve : Controller → List Request → Controller × ℕ
  serve c [] = (c, 0)
  serve c ((source, now) ∷ rs) =
      let (c', d) = admit iteration c source now in let (c'', n) = serve c' rs in (c'', spent d + n)

  serve-IsValid : (c : Controller) (rs : List Request) → IsValid c → IsValid (serve c rs).0
  serve-IsValid c [] v = v
  serve-IsValid c ((source, now) ∷ rs) v =
      serve-IsValid (admit iteration c source now).0 rs
        (admit-Answers iteration c source now v).valid

  serve_paid :
      (c : Controller) (rs : List Request) (until : ℕ)
      → IsValid c
      → c.global.last_refill ≤ until
      → AllBy until rs
      → (serve c rs).1 * c.global.refill_interval + c.global.last_refill
        ≤ c.global.tokens * c.global.refill_interval + until
  serve_paid c [] until v h w = grind arith
  serve_paid c ((source, now) ∷ rs) until v h w =
      let a = admit-Answers iteration c source now v in
      let c' = (admit iteration c source now).0 in
      let d = (admit iteration c source now).1 in
      let i = c.global.refill_interval in
      let by_then : c'.global.last_refill ≤ until = omega (arith, a.charged) in
      let later = serve_paid c' rs until a.valid by_then w.1 in
      let later' : (serve c' rs).1 * i + c'.global.last_refill ≤ c'.global.tokens * i + until =
        subst (λ j. (serve c' rs).1 * j + c'.global.last_refill ≤ c'.global.tokens * j + until)
          a.charged.same_interval later in
      let split : (spent d + (serve c' rs).1) * i ≡ spent d * i + (serve c' rs).1 * i =
        add-mul (spent d) (serve c' rs).1 i in
      let now_paid : (spent d + c'.global.tokens) * i ≡ spent d * i + c'.global.tokens * i =
        add-mul (spent d) c'.global.tokens i in
      omega (arith, later', split, now_paid, a.charged.paid)

  -- The table of a controller that was made from accepted limits never exceeds
  -- `maximum_tracked_sources`, and no bucket ever holds more tokens than its burst, over every
  -- sequence of requests, in whatever order the table is iterated.
  pub served-IsValid :
      (l : AdmissionLimits) (start : ℕ) (rs : List Request)
      → IsAccepted l
      → IsValid (serve (new_controller l start) rs).0
  served-IsValid l start rs a = serve-IsValid _ rs (new_controller-IsValid l start a)

  -- The endpoint admits at most its initial global tokens and one request for each global refill
  -- interval since it was made: of any requests, from any sources and at any instants up to
  -- `until`, the number allowed times the interval is at most the initial tokens times the interval
  -- plus the time that has passed.
  pub admitted_rate :
      (l : AdmissionLimits) (start until : ℕ) (rs : List Request)
      → IsAccepted l
      → start ≤ until
      → AllBy until rs
      → (serve (new_controller l start) rs).1 * l.global_refill_interval
        ≤ l.global_initial_tokens * l.global_refill_interval + (until - start)
  unfolding new_controller
  admitted_rate l start until rs a h w =
      omega
        (arith, serve_paid (new_controller l start) rs until (new_controller-IsValid l start a) h w)
