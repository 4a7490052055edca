-- ===== src/Vmware/Mapping/Tests.antt =====
-- The mapping run on one VM, with floats in thousandths, and the theorems at that run.
use v_machine.Prelude.{
  ℕ, ◌≡◌, ◌≢◌, refl, true, false, some, none, [], ◌∷◌, Listed, length, count_if, arith, inl,
}
use v_machine.Prelude.Exec.{ok, raise}
use v_machine.Prelude.Text.{lower}
use v_machine.Vmware.Inventory.{VmDisk, VmHardware, VmNic, VmSummary}
use v_machine.Vmware.Assessment.{FlavorMatch, VmMapping}
use v_machine.Vmware.Mapping.{map_networks, map_vm}
use v_machine.Vmware.Mapping.Resources.{
  value_error, OsFlavor, OsNetwork, Openstack, Engine, get_flavors, get_networks,
}
use v_machine.Vmware.Mapping.Flavor.{
  Size, size_of, max_known, divisor, target_size, distance, nearest, flavor_result, report_best,
  choose, largest_sizes, match_in, match_flavor,
}
use v_machine.Vmware.Mapping.Network.{find_network, map_folded, map_nic, map_nics}
use v_machine.Vmware.Mapping.Disk.{map_disk, map_disks_from, map_disks}
use v_machine.Vmware.Mapping.Nearest.{IsOrder, NoneNearer, choose_nearest}
use v_machine.Vmware.Mapping.Samples.{thousandths}
use v_machine.Vmware.Mapping.Names.{Resolves, map_nic-Resolves}
use v_machine.Vmware.Mapping.Volumes.{total_size, map_disks_faithful}
use v_machine.Vmware.Mapping.Missing.{match_in_raises}
use v_machine.Vmware.Mapping.Reuse.{map_vm_reuse}

program : Unit {0}
unfolding lower map_networks map_vm get_flavors get_networks size_of max_known divisor target_size
    distance nearest flavor_result report_best choose largest_sizes match_in match_flavor
    find_network map_folded map_nic map_nics map_disk map_disks_from map_disks
program = tt

thousandths-IsOrder : IsOrder thousandths
thousandths-IsOrder = record {
  irreflexive = λ x. ground arith;
  transitive = λ x y z p q. ground arith;
}

abbrev flavor : ℕ → ℕ → ℕ → OsFlavor
flavor c r d = record { id = some "f"; name = none; vcpus = some c; ram = some r; disk = some d }

abbrev small : OsFlavor
small = flavor 1 2048 20

abbrev exact_fit : OsFlavor
exact_fit = flavor 4 8192 40

abbrev unsized : OsFlavor
unsized = record { id = some "u"; name = none; vcpus = none; ram = some 1; disk = some 1 }

abbrev network : OsNetwork
network = record { id = some "n-1"; name = some "vm network" }

abbrev os : Openstack
os = record { flavors = ok (unsized ∷ small ∷ exact_fit ∷ []); networks = ok (network ∷ []) }

abbrev nic : VmNic
nic = record {
  label = "NIC 1";
  network_name = "VM Network";
  mac_address = none;
  ip_addresses = [];
  nic_type = none;
}

abbrev disk : ℕ → VmDisk
disk n = record {
  label = "disk";
  capacity_gb = n;
  thin_provisioned = true;
  datastore_name = none;
  controller_type = none;
}

abbrev hardware : VmHardware
hardware = record {
  cpu_count = 4;
  cpu_cores_per_socket = 1;
  memory_mb = 8192;
  disks = disk 30 ∷ disk 10 ∷ [];
  nics = nic ∷ [];
}

abbrev vm : VmSummary
vm = record {
  id = "vm-1";
  name = "web";
  power_state = "poweredOn";
  guest_os = none;
  hardware = some hardware;
  cluster_name = none;
  datastores = [];
  tags = [];
  annotation = none;
  firmware = none;
  secure_boot_enabled = none;
  vmware_tools_status = none;
  disk_controller_types = none;
}

abbrev cold : Engine
cold = record { flavor_cache = none; network_cache = none; observed = [] }

abbrev target : Size
target = record { cpu = 4; ram = 8192; disk = 40 }

abbrev exact_match : FlavorMatch ℕ
exact_match = record {
  flavor_id = "f";
  flavor_name = "";
  score = 1000;
  vcpus = 4;
  ram = 8192;
  disk = 40;
  overprovisioned = true;
  underprovisioned = false;
}

abbrev mapped : VmMapping ℕ
mapped = record {
  vm_id = "vm-1";
  vm_name = "web";
  flavor_match = some exact_match;
  network_mappings =
      record {
        vm_network = "VM Network";
        openstack_network_id = some "n-1";
        openstack_network_name = some "vm network";
        match_type = "case_insensitive";
        confidence = 90;
      }
      ∷ [];
  disk_mappings = map_disks vm;
}

map_vm_runs : (map_vm thousandths os vm cold).0 ≡ ok mapped
unfolding program
map_vm_runs = refl

observed :
    (map_vm thousandths os vm cold).1.observed
    ≡ ("flavors", "success") ∷ ("networks", "success") ∷ []
unfolding program
observed = refl

choice : choose thousandths target target (unsized ∷ small ∷ exact_fit ∷ []) ≡ some exact_match
unfolding program
choice = refl

choose_nearest_example :
    (f : OsFlavor) × (s : Size) × (exact_match
      ≡ flavor_result thousandths target target f s (distance thousandths target target s))
    × (size_of f ≡ some s)
    × Listed f (unsized ∷ small ∷ exact_fit ∷ [])
    × NoneNearer thousandths thousandths-IsOrder target target
        (distance thousandths target target s)
        (unsized ∷ small ∷ exact_fit ∷ [])
choose_nearest_example =
    choose_nearest thousandths thousandths-IsOrder target target _ exact_match choice

no_choice : choose thousandths target target (unsized ∷ []) ≡ none
unfolding program
no_choice = refl

map_nic-Resolves_example : Resolves (network ∷ []) "VM Network" (map_nic (network ∷ []) nic)
map_nic-Resolves_example = map_nic-Resolves (network ∷ []) nic

map_disks_faithful_example :
    (length (map_disks vm) ≡ 2)
    × (total_size (map_disks vm) ≡ 40)
    × (count_if (λ m. m.bootable) (map_disks vm) ≡ 1)
map_disks_faithful_example = map_disks_faithful vm hardware refl

small_size : size_of small ≡ some (record { cpu = 1; ram = 2048; disk = 20 })
unfolding size_of
small_size = refl

match_in_raises_example : match_in thousandths target (unsized ∷ []) ≡ raise value_error
match_in_raises_example = match_in_raises thousandths target unsized [] (inl (refl, tt))

nics_present : hardware.nics ≢ []
nics_present e = cc

map_vm_reuse_example :
    (map_vm thousandths
      (record { flavors = ok []; networks = ok [] })
      vm
      (map_vm thousandths os vm cold).1).1
    ≡ (map_vm thousandths os vm cold).1
map_vm_reuse_example =
    map_vm_reuse thousandths os vm hardware cold mapped
      (record { flavors = ok []; networks = ok [] }) vm refl nics_present map_vm_runs
