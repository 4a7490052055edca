-- ===== src/Vmware/Mapping/Reuse.antt =====
-- The engine asks OpenStack for each kind of resource at most once.
use v_machine.Prelude.{◌≡◌, ◌≢◌, some, [], arith, true, is_some}
use v_machine.Prelude.Exec.{ok}
use v_machine.Vmware.Inventory.{VmSummary, VmHardware}
use v_machine.Vmware.Assessment.{VmMapping}
use v_machine.Vmware.Mapping.{map_networks, map_vm}
use v_machine.Vmware.Mapping.Resources.{Engine, Openstack, get_flavors, get_networks}
use v_machine.Vmware.Mapping.Flavor.{Floats, match_flavor}

-- Both caches are filled.
record IsWarm (e : Engine) : Type 0 where
  flavors : is_some e.flavor_cache ≡ true
  networks : is_some e.network_cache ≡ true

module _ (fl : Floats) (os : Openstack) (vm : VmSummary) where
  -- OpenStack is not asked: neither its answers nor the metric play a part.
  warm_unchanged : (e : Engine) → IsWarm e → (map_vm fl os vm e).1 ≡ e
  unfolding map_vm map_networks match_flavor get_flavors get_networks
  warm_unchanged e w = ground arith

  -- A successful mapping of a VM with hardware and an adapter fills both caches.
  mapped_IsWarm :
      (hw : VmHardware) (e : Engine) (m : VmMapping fl.F)
      → vm.hardware ≡ some hw
      → hw.nics ≢ []
      → (map_vm fl os vm e).0 ≡ ok m
      → IsWarm (map_vm fl os vm e).1
  unfolding map_vm map_networks match_flavor get_flavors get_networks
  mapped_IsWarm hw e m h n q = ground arith

-- Once a VM with hardware and an adapter has been mapped, mapping any VM with any answers of
-- OpenStack leaves the engine as it is: no call is made, and the caches keep the first answers.
pub map_vm_reuse :
    (fl : Floats) (os : Openstack) (vm : VmSummary) (hw : VmHardware) (e : Engine)
    (m : VmMapping fl.F) (os' : Openstack) (vm' : VmSummary)
    → vm.hardware ≡ some hw
    → hw.nics ≢ []
    → (map_vm fl os vm e).0 ≡ ok m
    → (map_vm fl os' vm' (map_vm fl os vm e).1).1 ≡ (map_vm fl os vm e).1
map_vm_reuse fl os vm hw e m os' vm' h n q =
    warm_unchanged fl os' vm' _ (mapped_IsWarm fl os vm hw e m h n q)
