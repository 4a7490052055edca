-- ===== src/Vmware/Mapping/Volumes.antt =====
-- The volumes planned for a VM's disks.
use v_machine.Prelude.{
  ℕ, ◌+◌, ◌≡◌, ◌<◌, refl, List, [], ◌∷◌, map, length, sum, count_if, arith, if◌then◌else◌, some,
}
use v_machine.Vmware.Inventory.{VmDisk, VmHardware, VmSummary}
use v_machine.Vmware.Assessment.{DiskMapping}
use v_machine.Vmware.Compatibility.Report.{is_empty, total_capacity}
use v_machine.Vmware.Mapping.Disk.{map_disk, map_disks_from, map_disks}

abbrev pub total_size : List DiskMapping → ℕ
total_size ms = sum (map (λ m. m.openstack_size_gb) ms)

-- What one pass from index `i` gives: as many volumes as disks, of the same capacity together, and
-- a bootable one only for index 0.
map_disks_from_sizes :
    (i : ℕ) (disks : List VmDisk)
    → (length (map_disks_from i disks) ≡ length disks)
      × (total_size (map_disks_from i disks) ≡ total_capacity disks)
unfolding map_disks_from map_disk
map_disks_from_sizes i [] = (refl, refl)
map_disks_from_sizes i (d ∷ disks) =
    let (l, s) = map_disks_from_sizes (i + 1) disks in (omega (arith, l), omega (arith, s))

none_bootable :
    (i : ℕ) (disks : List VmDisk) → 0 < i → count_if (λ m. m.bootable) (map_disks_from i disks) ≡ 0
unfolding map_disks_from map_disk
none_bootable i [] h = refl
none_bootable i (d ∷ disks) h = ground (arith, none_bootable (i + 1) disks)

first_bootable :
    (disks : List VmDisk)
    → count_if (λ m. m.bootable) (map_disks_from 0 disks) ≡ (if is_empty disks then 0 else 1)
unfolding map_disks_from map_disk
first_bootable [] = refl
first_bootable (d ∷ disks) = ground (arith, none_bootable (0 + 1) disks)

-- A VM's volumes are as many and as large together as its disks, and exactly one of them boots
-- unless there is none.
pub map_disks_faithful :
    (vm : VmSummary) (hw : VmHardware)
    → vm.hardware ≡ some hw
    → (length (map_disks vm) ≡ length hw.disks)
      × (total_size (map_disks vm) ≡ total_capacity hw.disks)
      × (count_if (λ m. m.bootable) (map_disks vm) ≡ (if is_empty hw.disks then 0 else 1))
unfolding map_disks
map_disks_faithful vm hw h =
    let (l, s) = map_disks_from_sizes 0 hw.disks in
    rw (h, map_disks) (l, s, first_bootable hw.disks)
