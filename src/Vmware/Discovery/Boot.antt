-- ===== src/Vmware/Discovery/Boot.antt =====
-- app/clients/vmware/connection.py, _extract_vm_disks, with app/services/vmware/inventory_service.py,
-- _build_vm_summary, and app/services/vmware/mapping_engine.py, _map_disks: the volume that boots.
use v_machine.Prelude.{
  ℕ, ◌+◌, ◌≡◌, ◌<◌, refl, ap, ◌∙◌, String, true, false, none, some, List, [], ◌∷◌, ◌++◌, map, All,
  Bool-cases, inl, inr, arith, length,
}
use v_machine.Vmware.Assessment.{DiskMapping}
use v_machine.Vmware.Inventory.{VmDisk}
use v_machine.Vmware.Vim.{Device, VirtualMachine, virtual_disk}
use v_machine.Vmware.Mapping.Disk.{map_disk, map_disks_from, map_disks}
use v_machine.Vmware.Client.{
  DiskDetail, layout_disks, device_disk, device_disks, deduplicate, disks_of, devices_of,
  extract_vm_disks,
}
use v_machine.Vmware.Client.Detail.{get_vm_detail}
use v_machine.Vmware.Discovery.{disk_of, build_vm_summary}

-- a file of the layout, as a disk and as a volume
abbrev file_disk : String → DiskDetail
file_disk df = record {
  disk_file = df;
  capacity_gb = 0;
  thin_provisioned = true;
  datastore_name = none;
}

abbrev pub boot_mapping : String → DiskMapping
boot_mapping df = record {
  vm_disk_label = df;
  vm_disk_gb = 0;
  openstack_volume_type = some "ceph-rbd";
  openstack_size_gb = 0;
  bootable = true;
}

-- the devices come after what is there
device_disks-cons :
    (devices : List Device) (d : DiskDetail) (disks : List DiskDetail)
    → (rest : List DiskDetail) × (device_disks devices (d ∷ disks) ≡ d ∷ rest)
unfolding device_disks
device_disks-cons [] d disks = (disks, refl)
device_disks-cons (dev ∷ devices) d disks = elim (Bool-cases (dev.is_instance virtual_disk)) [
  | inl e ↦
      rw e (device_disks-cons devices d (disks ++ device_disk (length (d ∷ disks) + 1) dev ∷ []))
  | inr e ↦ rw e (device_disks-cons devices d disks)
]

disks_of-cons :
    (df : String) (files : List String) (rest : List (List String)) (devices : List Device)
    → (others : List DiskDetail) × (disks_of ((df ∷ files) ∷ rest) devices ≡ file_disk df ∷ others)
unfolding disks_of layout_disks deduplicate
disks_of-cons df files rest devices =
    let found = device_disks-cons devices (file_disk df) (layout_disks (files ∷ rest)) in
    (deduplicate (df ∷ []) found.0, ap (deduplicate []) found.1)

unbootable :
    (i : ℕ) (disks : List VmDisk) → 0 < i → All (λ m. m.bootable ≡ false) (map_disks_from i disks)
unfolding map_disks_from map_disk
unbootable i [] h = tt
unbootable i (d ∷ disks) h = (ground (arith, h), unbootable (i + 1) disks (omega (arith, h)))

-- Where the layout of a VM names a file, the volume that boots is made of this file: it has 0 GB, whatever
-- the disks of the VM are, and none of the other volumes boots.
pub boot_volume_empty :
    (vm : VirtualMachine) (df : String) (files : List String) (rest : List (List String))
    → vm.layout ≡ (df ∷ files) ∷ rest
    → (others : List DiskMapping) × ((map_disks (build_vm_summary vm) ≡ boot_mapping df ∷ others)
        × All (λ m. m.bootable ≡ false) others)
unfolding map_disks build_vm_summary get_vm_detail extract_vm_disks map_disks_from map_disk
boot_volume_empty vm df files rest e =
    let found = disks_of-cons df files rest (devices_of vm) in
    let disks = map disk_of found.0 in
    (
      map_disks_from 1 disks,
      (
        ap (λ ds. map_disks_from 0 (map disk_of ds))
            (ap (λ l. disks_of l (devices_of vm)) e ∙ found.1),
        unbootable 1 disks (omega arith),
      ),
    )
