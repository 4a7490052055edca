-- ===== src/Vmware/Discovery/Tests.antt =====
-- The inventory of vCenter on concrete inputs.
use v_machine.Prelude.{◌≡◌, refl, false, some, List, [], ◌∷◌, All, arith}
use v_machine.Prelude.Ends.{Ends}
use v_machine.Prelude.Text.{f_string}
use v_machine.Vmware.Assessment.{DiskMapping}
use v_machine.Vmware.Mapping.Disk.{map_disks}
use v_machine.Vmware.Client.{datastore_of}
use v_machine.Vmware.Client.Paths.{IsPlain, datastore_of-path}
use v_machine.Vmware.Discovery.{build_vm_summary, list_vms, sync_inventory}
use v_machine.Vmware.Discovery.Boot.{boot_mapping, boot_volume_empty}
use v_machine.Vmware.Discovery.Caching.{Answered, list_vms-cached}
use v_machine.Vmware.Discovery.Samples.{machine, vsphere, to_gb, world}
use v_machine.Vmware.Discovery.Scheduling.{Partly}
use v_machine.Vmware.Discovery.Syncing.{Synced, sync_inventory_accounted}

datastore_of-path_example :
    datastore_of (f_string ("[" ∷ "ds1" ∷ "] " ∷ "web/web.vmdk" ∷ [])) ≡ "ds1"
unfolding IsPlain
datastore_of-path_example = datastore_of-path "d" "s1" "web/web.vmdk" (refl, (refl, (refl, tt)))

boot_volume_empty_example :
    (others : List DiskMapping) × ((map_disks (build_vm_summary machine)
        ≡ boot_mapping "[ds1] web/web.vmdk" ∷ others)
      × All (λ m. m.bootable ≡ false) others)
boot_volume_empty_example = boot_volume_empty machine "[ds1] web/web.vmdk" [] [] refl

list_vms-cached_example :
    let out = list_vms to_gb 0 vsphere false world in
    Ends
      (λ items w'. Answered to_gb 0 vsphere items 1200 w')
      (λ e w'. w'.rest ≡ world.rest)
      out.0
      out.1
list_vms-cached_example = list_vms-cached to_gb 0 vsphere world 1200 (omega arith)

sync_inventory_accounted_example :
    let out = sync_inventory to_gb 0 vsphere (some "t1") world in
    Ends (Synced to_gb 0 vsphere world) (λ e w'. Partly to_gb 0 vsphere world w') out.0 out.1
sync_inventory_accounted_example = sync_inventory_accounted to_gb 0 vsphere (some "t1") world
