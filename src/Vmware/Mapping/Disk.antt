-- ===== src/Vmware/Mapping/Disk.antt =====
-- app/services/vmware/mapping_engine.py, `_map_disks`: a volume for each disk; the first one boots.
use v_machine.Prelude.{ℕ, ◌+◌, not, none, some, List, [], ◌∷◌, if◌then◌else◌, ◌==◌}
use v_machine.Vmware.Inventory.{VmDisk, VmSummary}
use v_machine.Vmware.Assessment.{DiskMapping}

unfoldable pub map_disk : ℕ → VmDisk → DiskMapping
map_disk i disk = record {
  vm_disk_label = disk.label;
  vm_disk_gb = disk.capacity_gb;
  openstack_volume_type = some (if not disk.thin_provisioned then "ceph" else "ceph-rbd");
  openstack_size_gb = disk.capacity_gb;
  bootable = i == 0;
}

-- the loop over `enumerate(disks)`, from index `i`
unfoldable pub map_disks_from : ℕ → List VmDisk → List DiskMapping
map_disks_from i [] = []
map_disks_from i (disk ∷ disks) = map_disk i disk ∷ map_disks_from (i + 1) disks

unfoldable pub map_disks : VmSummary → List DiskMapping
map_disks vm = elim vm.hardware [ none ↦ [] | some hw ↦ map_disks_from 0 hw.disks ]
