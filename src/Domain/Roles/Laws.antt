-- ===== src/Domain/Roles/Laws.antt =====
-- crates/nodescale-domain/src/lib.rs: `Roles::new` and `Operation::from_str` against the set and
-- the names that they stand for.
use hermes_nodescale.Prelude.{
  ◌≡◌, ◌↔◌, ◌≢◌, refl, Bool, true, false, List, [], ok, err, arith, is_empty, ◌∙◌, ◌⊎◌, inl, inr,
  if◌then◌else◌,
}
use mathlib.Core.Path.{subst}
use hermes_nodescale.Text.{Text, text}
use hermes_nodescale.Text.Laws.{text_eq_iff}
use hermes_nodescale.OrderedSet.{from_list, contains, IsCanonical}
use hermes_nodescale.OrderedSet.Laws.{
  from_list-IsCanonical, contains-from_list, from_list-canonical, is_empty-from_list,
}
use hermes_nodescale.Domain.Error.{Checked, invalid_value}
use hermes_nodescale.Domain.Roles.{
  Role, Roles, new_roles, Operation, operation_str, operation_from_str, ranked_role, fleet_health,
  fleet_inventory, fleet_message, fleet_hermes_run,
}

pub new_roles_value :
    (values : List Role) {roles : Roles}
    → new_roles values ≡ ok roles
    → (from_list values ≡ roles) × (is_empty values ≡ false)
unfolding new_roles
new_roles_value values h = ground (arith, is_empty-from_list values)

-- A canonical, non-empty set of roles is built to itself.
pub new_roles-canonical :
    (roles : Roles) → IsCanonical roles → is_empty roles ≡ false → new_roles roles ≡ ok roles
unfolding new_roles
new_roles-canonical roles c e = rw (from_list-canonical roles c) (ground arith)

-- Roles are built from every collection but the empty one; they are the members given, each once
-- and in order, and building them again from their own members gives the same roles.
pub new_roles_exact :
    (values : List Role) {roles : Roles}
    → new_roles values ≡ ok roles
    → (values ≢ [])
      × IsCanonical roles
      × ((r : Role) → contains roles r ≡ contains values r)
      × (new_roles roles ≡ ok roles)
new_roles_exact values h =
    let (e, full) = new_roles_value values h in
    let c = subst IsCanonical e (from_list-IsCanonical values) in
    (
      λ none_given. not_empty values none_given full,
      c,
      λ r. subst (λ s. contains s r ≡ contains values r) e (contains-from_list values r),
      new_roles-canonical _ c
          (subst (λ s. is_empty s ≡ false) e (is_empty-from_list values ∙ full)),
    )
  where
    not_empty : (vs : List Role) → vs ≡ [] → is_empty vs ≡ false → ⊥
    not_empty vs e full = ground arith

abbrev choose : Bool → Bool → Bool → Bool → Checked Operation
choose a b c d =
    if a
    then ok fleet_health
    else if b
    then ok fleet_inventory
    else if c
    then ok fleet_message
    else if d
    then ok fleet_hermes_run
    else err (invalid_value "operation" "unknown exact operation")

choose_cases :
    (a b c d : Bool) (o : Operation)
    → choose a b c d ≡ ok o
    → ((a ≡ true) × (fleet_health ≡ o))
      ⊎ ((b ≡ true) × (fleet_inventory ≡ o))
      ⊎ ((c ≡ true) × (fleet_message ≡ o))
      ⊎ ((d ≡ true) × (fleet_hermes_run ≡ o))
choose_cases a b c d o h = ground arith

named_as :
    (value : Text) (p o : Operation)
    → value ≡ text (operation_str p)
    → p ≡ o
    → value ≡ text (operation_str o)
named_as value p o e q = subst (λ r. value ≡ text (operation_str r)) q e

-- An operation is parsed exactly from its own name.
pub operation_from_str_exact :
    (value : Text) (o : Operation)
    → (operation_from_str value ≡ ok o) ↔ (value ≡ text (operation_str o))
unfolding operation_from_str
operation_from_str_exact value o = (
  λ h. elim (choose_cases _ _ _ _ o h) [
    | inl (t, e) ↦ named_as value fleet_health o ((text_eq_iff value _).0 t) e
    | inr (inl (t, e)) ↦ named_as value fleet_inventory o ((text_eq_iff value _).0 t) e
    | inr (inr (inl (t, e))) ↦ named_as value fleet_message o ((text_eq_iff value _).0 t) e
    | inr (inr (inr (t, e))) ↦ named_as value fleet_hermes_run o ((text_eq_iff value _).0 t) e
  ],
  λ h. rw h (named o),
)
  where
    named : (p : Operation) → operation_from_str (text (operation_str p)) ≡ ok p
    named fleet_health = refl
    named fleet_inventory = refl
    named fleet_message = refl
    named fleet_hermes_run = refl
