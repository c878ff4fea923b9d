-- ===== src/Domain/Records/Laws.antt =====
-- crates/nodescale-domain/src/lib.rs: when `Network::new` and `Device::new` accept a name, and what
-- they make of it.
use hermes_nodescale.Prelude.{◌≤◌, ◌≡◌, refl, false, String, ok, all, any, >>=-eq-ok, ◌>>=◌, Result}
use hermes_nodescale.Text.{Text, len, is_whitespace, is_control}
use hermes_nodescale.Domain.Identifier.{Uuid, validate_name}
use hermes_nodescale.Domain.Identifier.Names.{validate_name_exact}
use hermes_nodescale.OrderedSet.{insert, from_list}
use hermes_nodescale.Domain.Roles.{new_roles}
use hermes_nodescale.Domain.Binding.{Time}
use hermes_nodescale.Domain.Records.{ProviderKind, Network, new_network, Device, new_device}

abbrev pub IsName : Text → Type 0
IsName t = (all is_whitespace t ≡ false) × (len t ≤ 128) × (any is_control t ≡ false)

IsName-validate :
    (value : Text) (kind : String) → IsName value → validate_name value kind ≡ ok value
IsName-validate value kind (printable, short, plain) =
    (validate_name_exact value value kind).1 (refl, printable, short, plain)

-- The name is checked first; what follows is given the name.
first_value :
    {E A B : Type 0} (m : Result E A) (k : A → Result E B) (a : A) (b : B)
    → m ≡ ok a
    → k a ≡ ok b
    → (m >>= k) ≡ ok b
first_value m k a b e r = rw e r

-- A network is made of every name that has a character that is not white space, at most 128 bytes
-- and no control character; the network keeps the name as it is given.
pub new_network_accepts :
    (network_id : Uuid) (name : Text) (kind : ProviderKind) (instance_id : Uuid) (now : Time)
    → IsName name
    → (made : Network) × (new_network network_id name kind instance_id now ≡ ok made)
      × (made.name ≡ name)
unfolding new_network new_roles from_list insert
new_network_accepts network_id name kind instance_id now named =
    (_, first_value _ _ name _ (IsName-validate name "network name" named) refl, refl)

-- The same for a device.
pub new_device_accepts :
    (device_id network_id : Uuid) (name : Text) (now : Time)
    → IsName name
    → (made : Device) × (new_device device_id network_id name now ≡ ok made)
      × (made.display_name ≡ name)
unfolding new_device new_roles from_list insert
new_device_accepts device_id network_id name now named =
    (_, first_value _ _ name _ (IsName-validate name "display name" named) refl, refl)

-- A network has a name of that form.
pub new_network-IsName :
    (network_id : Uuid) (name : Text) (kind : ProviderKind) (instance_id : Uuid) (now : Time)
    {made : Network}
    → new_network network_id name kind instance_id now ≡ ok made
    → IsName name
unfolding new_network
new_network-IsName network_id name kind instance_id now h =
    let (_, named, _) = >>=-eq-ok (validate_name name "network name") _ h in
    let (_, printable, short, plain) = (validate_name_exact name _ "network name").0 named in
    (printable, short, plain)
