-- ===== src/Domain/Fleet/Projection/History.antt =====
-- crates/nodescale-domain/src/n7.rs: `transition`, `disable` and `remove`, one at a time and in
-- sequence.
use hermes_nodescale.Prelude.{
  bind_iff, ℕ, ◌+◌, ◌≤◌, ◌<◌, ◌≡◌, ◌≢◌, ◌↔◌, inr, refl, arith, List, [], ◌∷◌, ok, length, ◌>>=◌,
  fail_if, >>=-eq-ok, ◌∙◌,
}
use mathlib.Core.Path.{subst}
use hermes_nodescale.Domain.Error.{DomainError, Checked}
use hermes_nodescale.Domain.Identifier.{UuidCrate}
use hermes_nodescale.Domain.Generation.{Generation, validate_advance}
use hermes_nodescale.Domain.Fleet.Content.{
  FleetEnrollmentState, pending, disabled, removed, N7FleetDesiredProjection,
}
use hermes_nodescale.Domain.Fleet.Projection.{
  is_removed, undigested, transition_projection, disable, remove,
}
use hermes_nodescale.Domain.Fleet.Projection.Exact.{
  IsProjection, sealed, IsSealed, IsProjection-made_exactly, validate_exact, advanced,
}

advance_exact : (g next : Generation) → (validate_advance g g next ≡ ok tt) ↔ (g < next)
unfolding validate_advance
advance_exact g next = (λ h. ground arith, λ h. ground arith)

removed_exact :
    (s : FleetEnrollmentState) (e : DomainError)
    → (fail_if (is_removed s) e ≡ ok tt) ↔ (s ≢ removed)
removed_exact pending e = (λ _ h. ground arith, λ _. refl)
removed_exact disabled e = (λ _ h. ground arith, λ _. refl)
removed_exact removed e = (λ h. cc, λ h. absurd (h refl))

advanced-IsProjection :
    (p : N7FleetDesiredProjection) (s : FleetEnrollmentState) (g : Generation)
    → IsProjection p
    → p.projection_generation < g
    → IsProjection (undigested (advanced p s g))
advanced-IsProjection p s g (n, (d, (name, (m, (_, (v, (same, (roles, _)))))))) later =
    (n, (d, (name, (m, (omega (arith, later), (v, (same, (roles, (refl, inr refl)))))))))

-- The two changes that the module exports, and a history of them.
pub data Change : Type 0 where
  to_disabled to_removed : Generation → Change

-- The content that no change touches.
abbrev pub SameEnrollment : N7FleetDesiredProjection → N7FleetDesiredProjection → Type 0
SameEnrollment p q =
    (p.network_id ≡ q.network_id)
    × (p.device_id ≡ q.device_id)
    × (p.display_name ≡ q.display_name)
    × (p.membership_generation ≡ q.membership_generation)
    × (p.binding_provenance ≡ q.binding_provenance)
    × (p.roles ≡ q.roles)

-- Withdrawn: not pending, and without grants.
abbrev pub IsWithdrawn : N7FleetDesiredProjection → Type 0
IsWithdrawn q = (q.enrollment_state ≢ pending) × (q.generated_grants ≡ [])

module _ (crate : UuidCrate) (sha256 : List ℕ → List ℕ) where
  -- A change of enrollment state is accepted exactly if the projection is well formed, its digest
  -- is that of its content, it is not removed, and the next generation is greater. The new
  -- projection has the new state and generation, no grants, and otherwise the same content, with
  -- the digest of its own.
  pub transition_exact :
      (p q : N7FleetDesiredProjection) (s : FleetEnrollmentState) (g : Generation)
      → (transition_projection crate sha256 p s g ≡ ok q) ↔ (
          (IsProjection p × IsSealed crate sha256 p)
          × ((p.enrollment_state ≢ removed)
              × ((p.projection_generation < g) × (sealed crate sha256 (advanced p s g) ≡ q))))
  unfolding transition_projection
  transition_exact p q s g = bind_iff _ _ q (validate_exact crate sha256 p) λ valid.
      bind_iff _ _ q (removed_exact p.enrollment_state _) λ _.
        bind_iff _ _ q (advance_exact p.projection_generation g) λ later.
          let made = IsProjection-made_exactly crate sha256 (advanced p s g) q in
          (λ h. (made.0 h).1, λ e. made.1 (advanced-IsProjection p s g valid.0 later, e))

  abbrev pub apply : N7FleetDesiredProjection → Change → Checked N7FleetDesiredProjection
  apply p (to_disabled g) = disable crate sha256 p g
  apply p (to_removed g) = remove crate sha256 p g

  unfoldable pub run : N7FleetDesiredProjection → List Change → Checked N7FleetDesiredProjection
  run p [] = ok p
  run p (c ∷ cs) = apply p c >>= λ q. run q cs

  apply_exact :
      (p q : N7FleetDesiredProjection) (c : Change)
      → apply p c ≡ ok q
      → (s : FleetEnrollmentState) × (g : Generation) × (s ≢ pending)
        × (p.enrollment_state ≢ removed)
        × (p.projection_generation < g)
        × (sealed crate sha256 (advanced p s g) ≡ q)
  unfolding disable remove
  apply_exact p q (to_disabled g) h =
      let (_, (live, (later, e))) = (transition_exact p q disabled g).0 h in
      (disabled, g, (λ x. cc), live, later, e)
  apply_exact p q (to_removed g) h =
      let (_, (live, (later, e))) = (transition_exact p q removed g).0 h in
      (removed, g, (λ x. cc), live, later, e)

  changed :
      (p q : N7FleetDesiredProjection) (c : Change)
      → apply p c ≡ ok q
      → IsWithdrawn q × (p.projection_generation < q.projection_generation) × SameEnrollment p q
  changed p q c h =
      let (s, g, gone, live, later, e) = apply_exact p q c h in
      subst
        (λ r.
          IsWithdrawn r × (p.projection_generation < r.projection_generation) × SameEnrollment p r)
        e ((gone, refl), later, (refl, refl, refl, refl, refl, refl))

  unwrap :
      (p q : N7FleetDesiredProjection)
      → ◌≡◌ {A = Checked N7FleetDesiredProjection} (ok p) (ok q)
      → p ≡ q
  unwrap p q h = cc

  history_grows :
      (p q : N7FleetDesiredProjection) (cs : List Change)
      → run p cs ≡ ok q
      → p.projection_generation + length cs ≤ q.projection_generation
  unfolding run
  history_grows p q [] h =
      subst (λ r. p.projection_generation + 0 ≤ r.projection_generation) (unwrap p q h)
        (omega arith)
  history_grows p q (c ∷ cs) h =
      let (m, first, rest) = >>=-eq-ok (apply p c) _ h in
      let (_, later, _) = changed p m c first in omega (arith, later, history_grows m q cs rest)

  keeps_IsWithdrawn :
      (p q : N7FleetDesiredProjection) (cs : List Change)
      → IsWithdrawn p
      → run p cs ≡ ok q
      → IsWithdrawn q
  unfolding run
  keeps_IsWithdrawn p q [] w h = subst IsWithdrawn (unwrap p q h) w
  keeps_IsWithdrawn p q (c ∷ cs) w h =
      let (m, first, rest) = >>=-eq-ok (apply p c) _ h in
      keeps_IsWithdrawn m q cs (changed p m c first).0 rest

  keeps_enrollment :
      (p q : N7FleetDesiredProjection) (cs : List Change) → run p cs ≡ ok q → SameEnrollment p q
  unfolding run
  keeps_enrollment p q [] h =
      subst (SameEnrollment p) (unwrap p q h) (refl, refl, refl, refl, refl, refl)
  keeps_enrollment p q (c ∷ cs) h =
      let (m, first, rest) = >>=-eq-ok (apply p c) _ h in
      let (_, _, now) = changed p m c first in
      let later = keeps_enrollment m q cs rest in
      (
        now.0 ∙ later.0,
        now.1 ∙ later.1,
        now.2 ∙ later.2,
        now.3 ∙ later.3,
        now.4 ∙ later.4,
        now.5 ∙ later.5,
      )

  -- A history of at least one accepted change leaves a projection that is not pending and has no
  -- grants, whose generation is greater by at least the number of changes, and whose network,
  -- device, name, membership generation, provenance and roles are the ones at the start.
  pub history_withdraws :
      (p q : N7FleetDesiredProjection) (c : Change) (cs : List Change)
      → run p (c ∷ cs) ≡ ok q
      → IsWithdrawn q
        × (p.projection_generation + length (c ∷ cs) ≤ q.projection_generation)
        × SameEnrollment p q
  unfolding run
  history_withdraws p q c cs h =
      let (m, first, rest) = >>=-eq-ok (apply p c) _ h in
      (
        keeps_IsWithdrawn m q cs (changed p m c first).0 rest,
        history_grows p q (c ∷ cs) h,
        keeps_enrollment p q (c ∷ cs) h,
      )

  -- Nothing follows a removal: once a removal is accepted, every further change is refused.
  pub removal_is_last :
      (p q r : N7FleetDesiredProjection) (g : Generation) (c : Change)
      → remove crate sha256 p g ≡ ok q
      → apply q c ≢ ok r
  unfolding remove
  removal_is_last p q r g c h again =
      let (_, (_, (_, e))) = (transition_exact p q removed g).0 h in
      let (_, _, _, live, _, _) = apply_exact q r c again in
      live (subst (λ x. x.enrollment_state ≡ removed) e refl)
