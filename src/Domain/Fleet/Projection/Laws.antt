-- ===== src/Domain/Fleet/Projection/Laws.antt =====
-- crates/nodescale-domain/src/n7.rs: the stages of `validate_without_digest`, each against what it
-- asks for.
use hermes_nodescale.Prelude.{
  ℕ, ◌≤◌, ◌≡◌, ◌↔◌, ◌⊎◌, inl, inr, refl, arith, Bool, true, false, not, ◌&&◌, ◌||◌, [], ◌∷◌, ok,
  ◌>>=◌, ◌>>◌, fail_if, fail_if_iff, seq_iff, all, any, is_empty, ◌==◌, ◌∙◌, >>=-eq-ok,
}
use mathlib.Core.Path.{subst}
use hermes_nodescale.Text.{Text, len, is_whitespace, is_control}
use hermes_nodescale.Text.Laws.{is_empty-trim}
use hermes_nodescale.OrderedSet.{IsCanonical}
use hermes_nodescale.OrderedSet.Laws.{from_list-IsCanonical}
use hermes_nodescale.Domain.Error.{DomainError, Checked}
use hermes_nodescale.Domain.Identifier.{Uuid}
use hermes_nodescale.Domain.Roles.{Roles, new_roles, ranked_role}
use hermes_nodescale.Domain.Roles.Laws.{new_roles_value, new_roles-canonical}
use hermes_nodescale.Domain.Fleet.Grants.{FleetGeneratedGrants, is_generated, validate_grants}
use hermes_nodescale.Domain.Fleet.Content.{FleetEnrollmentState, pending, disabled, removed}
use hermes_nodescale.Domain.Fleet.Projection.{validate_display_name, roles_eq, is_pending}

-- At least one character that is not white space, at most 128 bytes, no control character.
abbrev pub IsDisplayName : Text → Type 0
IsDisplayName value =
    (all is_whitespace value ≡ false) × (len value ≤ 128) × (any is_control value ≡ false)

pub IsDisplayName-exact :
    (value : Text) → (validate_display_name value ≡ ok tt) ↔ IsDisplayName value
unfolding validate_display_name
IsDisplayName-exact value =
    let e = is_empty-trim value in (λ h. ground (arith, e), λ h. ground (arith, e))

pub match_exact :
    (n d n' d' : Uuid) (e : DomainError)
    → (fail_if (not (n == n') || not (d == d')) e ≡ ok tt) ↔ ((n ≡ n') × (d ≡ d'))
match_exact n d n' d' e = (λ h. ground arith, λ h. ground arith)

both : (m n : ℕ) (b : Bool) → ((m == n) && b) ≡ true → (m ≡ n) × (b ≡ true)
both m n b h = ground arith

roles_eq_sound : (as' bs : Roles) → roles_eq as' bs ≡ true → as' ≡ bs
roles_eq_sound [] [] h = refl
roles_eq_sound [] (b ∷ bs) h = ground arith
roles_eq_sound (a ∷ as') [] h = ground arith
roles_eq_sound (a ∷ as') (b ∷ bs) h =
    let (same_rank, rest) = both (ranked_role.rank a) (ranked_role.rank b) _ h in
    let head = ranked_role.rank_injective a b same_rank in
    let tail = roles_eq_sound as' bs rest in cc (head, tail)

roles_eq_refl : (roles : Roles) → roles_eq roles roles ≡ true
roles_eq_refl [] = refl
roles_eq_refl (r ∷ roles) = ground (arith, roles_eq_refl roles)

-- The roles are in canonical order, each once, and there is one.
abbrev pub IsRoles : Roles → Type 0
IsRoles roles = IsCanonical roles × (is_empty roles ≡ false)

roles_test :
    (c roles : Roles) (e : DomainError) → (fail_if (not (roles_eq c roles)) e ≡ ok tt) ↔ (c ≡ roles)
roles_test c roles e = (
  λ h. roles_eq_sound c roles (holds _ ((fail_if_iff _ e).0 h)),
  λ h. rw h (rw (roles_eq_refl roles) refl),
)
  where
    holds : (b : Bool) → not b ≡ false → b ≡ true
    holds b h = ground arith

pub roles_check :
    {Q : Type 0} (roles : Roles) (e : DomainError) (k : Checked (Unit {0}))
    → (k ≡ ok tt) ↔ Q
    → ((new_roles roles >>= λ c. fail_if (not (roles_eq c roles)) e >> k) ≡ ok tt)
      ↔ (IsRoles roles × Q)
roles_check roles e k q = (
  λ h.
      let (c, made, rest) = >>=-eq-ok (new_roles roles) _ h in
      let (same, passed) = (seq_iff _ k (roles_test c roles e) λ _. q).0 rest in
      let (built, full) = new_roles_value roles made in
      ((subst IsCanonical (built ∙ same) (from_list-IsCanonical roles), full), passed),
  λ h.
      rw (new_roles-canonical roles h.0.0 h.0.1)
        ((seq_iff _ k (roles_test roles roles e) λ _. q).1 (refl, h.1)),
)

pub grants_exact :
    (grants : FleetGeneratedGrants)
    → (validate_grants grants ≡ ok tt) ↔ (all is_generated grants ≡ true)
unfolding validate_grants
grants_exact grants = (λ h. ground arith, λ h. ground arith)

pub state_exact :
    (s : FleetEnrollmentState) (grants : FleetGeneratedGrants) (e : DomainError)
    → (fail_if (not (is_pending s) && not (is_empty grants)) e ≡ ok tt)
      ↔ ((s ≡ pending) ⊎ (grants ≡ []))
state_exact pending grants e = (λ _. inl refl, λ _. refl)
state_exact disabled [] e = (λ _. inr refl, λ _. refl)
state_exact disabled (g ∷ gs) e = (λ h. ground arith, λ h. ground arith)
state_exact removed [] e = (λ _. inr refl, λ _. refl)
state_exact removed (g ∷ gs) e = (λ h. ground arith, λ h. ground arith)
