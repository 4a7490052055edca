-- ===== src/Vmware/Mapping.antt =====
-- app/services/vmware/mapping_engine.py, VMwareMappingEngine: a VM's flavor, networks and disks in
-- OpenStack.
pub mod Resources
pub mod Flavor
pub mod Network
pub mod Disk
pub mod Nearest
pub mod Names
pub mod Volumes
pub mod Missing
pub mod Reuse
pub mod Samples
mod Tests
use v_machine.Prelude.{String, Option, none, some, List, [], ◌∷◌, ◌++◌}
use v_machine.Prelude.Exec.{Result, ok, raise, Exec, pure, gets, modify, ◌>>=◌, ◌>>◌}
use v_machine.Vmware.Inventory.{VmSummary, VmHardware}
use v_machine.Vmware.Assessment.{FlavorMatch, NetworkMapping, VmMapping}
use v_machine.Vmware.Compatibility.Report.{is_empty}
use Resources.{Error, Engine, Openstack, get_flavors, get_networks}
use Flavor.{Floats, match_flavor}
use Network.{map_nics}
use Disk.{map_disks}

map_networks : Openstack → VmSummary → Exec Error Engine (List NetworkMapping)
map_networks os vm = elim vm.hardware [
  | none ↦ pure []
  | some hw ↦ elim hw.nics [
    | [] ↦ pure []
    | nic ∷ nics ↦ do networks ← get_networks os; pure (map_nics networks (nic ∷ nics))
  ]
]

module _ (fl : Floats) where
  pub map_vm : Openstack → VmSummary → Exec Error Engine (VmMapping fl.F)
  unfolding map_networks
  map_vm os vm = do
    flavor_match ← match_flavor fl os vm
    network_mappings ← map_networks os vm
    pure (record {
      vm_id = vm.id;
      vm_name = vm.name;
      flavor_match = flavor_match;
      network_mappings = network_mappings;
      disk_mappings = map_disks vm;
    })
