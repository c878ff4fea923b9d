-- ===== src/Domain/Roles/Examples.antt =====
-- The properties of roles and operations at concrete ones.
use hermes_nodescale.Prelude.{◌≡◌, refl, List, [], ◌∷◌, ok}
use hermes_nodescale.OrderedSet.{insert, from_list}
use hermes_nodescale.Domain.Roles.{Role, worker, observer, ranked_role, new_roles}

-- Out of order, and one twice.
abbrev given : List Role
given = observer ∷ worker ∷ observer ∷ []

abbrev built : List Role
built = worker ∷ observer ∷ []

given-built : new_roles given ≡ ok built
unfolding new_roles from_list insert
given-built = refl
