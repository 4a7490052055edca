-- ===== src/Vmware/Mapping/Network.antt =====
-- app/services/vmware/mapping_engine.py, `_map_networks`: the network of each adapter, by its exact
-- name, else by its name without regard to case.
use v_machine.Prelude.{
  ℕ, String, Bool, false, ◌&&◌, not, Option, none, some, List, [], ◌∷◌, map, if◌then◌else◌, str_eq,
}
use v_machine.Prelude.Text.{lower}
use v_machine.Vmware.Inventory.{VmNic}
use v_machine.Vmware.Assessment.{NetworkMapping}
use v_machine.Vmware.Mapping.Resources.{OsNetwork}

-- the first network that passes the test: a `for` with `break`
unfoldable pub find_network : (OsNetwork → Bool) → List OsNetwork → Option OsNetwork
find_network p [] = none
find_network p (net ∷ nets) = if p net then some net else find_network p nets

-- net.name == vm_net
abbrev pub same_name : String → OsNetwork → Bool
same_name vm_net net = elim net.name [ none ↦ false | some name ↦ str_eq name vm_net ]

-- net.name and net.name.lower() == vm_net.lower()
abbrev pub same_lower_name : String → OsNetwork → Bool
same_lower_name vm_net net = elim net.name [
  | none ↦ false
  | some name ↦ not (str_eq name "") && str_eq (lower name) (lower vm_net)
]

abbrev pub matched : String → OsNetwork → String → ℕ → NetworkMapping
matched vm_net net match_type confidence = record {
  vm_network = vm_net;
  openstack_network_id = net.id;
  openstack_network_name = net.name;
  match_type = match_type;
  confidence = confidence;
}

abbrev pub not_found : String → NetworkMapping
not_found vm_net = record {
  vm_network = vm_net;
  openstack_network_id = none;
  openstack_network_name = none;
  match_type = "not_found";
  confidence = 0;
}

-- the second loop, run where the first found nothing
unfoldable pub map_folded : String → Option OsNetwork → NetworkMapping
map_folded vm_net none = not_found vm_net
map_folded vm_net (some net) = matched vm_net net "case_insensitive" 90

abbrev pub first_match : List OsNetwork → String → Option OsNetwork → NetworkMapping
first_match networks vm_net none =
    map_folded vm_net (find_network (same_lower_name vm_net) networks)
first_match networks vm_net (some net) = matched vm_net net "exact_name" 100

unfoldable pub map_nic : List OsNetwork → VmNic → NetworkMapping
map_nic networks nic =
    first_match networks nic.network_name (find_network (same_name nic.network_name) networks)

unfoldable pub map_nics : List OsNetwork → List VmNic → List NetworkMapping
map_nics networks nics = map (map_nic networks) nics
