-- ===== src/Domain/Roles.antt =====
-- crates/nodescale-domain/src/lib.rs: `Role`, `Roles`, `Operation`.
pub mod Laws
mod Examples
use hermes_nodescale.Prelude.{
  ℕ, ◌≡◌, String, Bool, true, false, List, [], ◌∷◌, ok, err, if◌then◌else◌, is_empty, arith,
}
use hermes_nodescale.Text.{Text, text, text_eq}
use hermes_nodescale.OrderedSet.{Ranked, from_list}
use hermes_nodescale.Domain.Error.{Checked, invalid_value}

pub data Role : Type 0 where
  node worker controller profile_host observer admin : Role

abbrev role_rank : Role → ℕ
role_rank node = 0
role_rank worker = 1
role_rank controller = 2
role_rank profile_host = 3
role_rank observer = 4
role_rank admin = 5

pub role_rank_injective : (a b : Role) → role_rank a ≡ role_rank b → a ≡ b
role_rank_injective a b h = ground arith

instance abbrev pub ranked_role : Ranked Role
ranked_role = record { rank = role_rank; rank_injective = role_rank_injective }

-- A `BTreeSet<Role>` as the list of its members in order.
abbrev pub Roles : Type 0
Roles = List Role

-- `Roles::new`
unfoldable pub new_roles : List Role → Checked Roles
new_roles values =
    let roles = from_list values in
    if is_empty roles then err (invalid_value "roles" "at least one role is required") else ok roles

pub data Operation : Type 0 where
  fleet_health fleet_inventory fleet_message fleet_hermes_run : Operation

abbrev operation_rank : Operation → ℕ
operation_rank fleet_health = 0
operation_rank fleet_inventory = 1
operation_rank fleet_message = 2
operation_rank fleet_hermes_run = 3

pub operation_rank_injective : (a b : Operation) → operation_rank a ≡ operation_rank b → a ≡ b
operation_rank_injective a b h = ground arith

instance abbrev pub ranked_operation : Ranked Operation
ranked_operation = record { rank = operation_rank; rank_injective = operation_rank_injective }

-- `Roles::operations`: no role implies an operation.
abbrev pub role_operations : Roles → List Operation
role_operations _ = []

-- `Operation::as_str`
abbrev pub operation_str : Operation → String
operation_str fleet_health = "fleet.health"
operation_str fleet_inventory = "fleet.inventory"
operation_str fleet_message = "fleet.message"
operation_str fleet_hermes_run = "fleet.hermes.run"

-- `Operation::from_str`
unfoldable pub operation_from_str : Text → Checked Operation
operation_from_str value =
    if text_eq value (text "fleet.health")
    then ok fleet_health
    else if text_eq value (text "fleet.inventory")
    then ok fleet_inventory
    else if text_eq value (text "fleet.message")
    then ok fleet_message
    else if text_eq value (text "fleet.hermes.run")
    then ok fleet_hermes_run
    else err (invalid_value "operation" "unknown exact operation")
