-- ===== src/Vmware/Plan/Steps.antt =====
-- app/services/vmware/plan_service.py, `_build_steps`: the numbered steps of one VM's migration.
use v_machine.Prelude.{
  ℕ, ◌+◌, String, Option, none, some, List, [], ◌∷◌, ◌++◌, if◌then◌else◌, str_eq,
}
use v_machine.Prelude.Text.{f_string, decimal}
use v_machine.Vmware.Inventory.{VmSummary}
use v_machine.Vmware.Assessment.{FlavorMatch, NetworkMapping, DiskMapping, VmMapping, Step}

-- the list built so far, and the counter `order`
pub record Draft : Type 0 where
  pub steps : List Step
  pub order : ℕ

-- steps.append(MigrationStep(order=order, …)); order += 1
unfoldable pub append_step : String → String → Option String → ℕ → Draft → Draft
append_step action description resource_id minutes d = record {
  steps =
      d.steps
      ++ record {
        order = d.order;
        action = action;
        description = description;
        resource_id = resource_id;
        estimated_minutes = minutes;
      }
        ∷ [];
  order = d.order + 1;
}

-- `name or '?'`
abbrev name_or_mark : Option String → String
name_or_mark none = "?"
name_or_mark (some s) = if str_eq s "" then "?" else s

unfoldable pub network_step : NetworkMapping → Draft → Draft
network_step nm d =
    if str_eq nm.match_type "not_found"
    then append_step "create_network"
        (f_string ("Create OpenStack network for VMware port group '" ∷ nm.vm_network ∷ "'" ∷ []))
        none 3 d
    else append_step "verify_network"
        (f_string (
          "Map VMware network '"
          ∷ nm.vm_network
          ∷ "' to OpenStack network '"
          ∷ name_or_mark nm.openstack_network_name
          ∷ "'"
          ∷ []))
        nm.openstack_network_id 1 d

unfoldable pub network_steps : List NetworkMapping → Draft → Draft
network_steps [] d = d
network_steps (nm ∷ nms) d = network_steps nms (network_step nm d)

unfoldable pub disk_step : DiskMapping → Draft → Draft
disk_step dm d =
    append_step "create_volume"
      (f_string (
        "Create "
        ∷ decimal dm.openstack_size_gb
        ∷ " GB volume for '"
        ∷ dm.vm_disk_label
        ∷ "'"
        ∷ []))
      none (if dm.bootable then 2 else 1) d

unfoldable pub disk_steps : List DiskMapping → Draft → Draft
disk_steps [] d = d
disk_steps (dm ∷ dms) d = disk_steps dms (disk_step dm d)

unfoldable pub closing_steps : VmSummary → Draft → Draft
closing_steps vm d = append_step "cleanup" "Clean up temporary exported disk files" none 1 (
    append_step "create_server"
      "Create OpenStack server from imported image with matched flavor and networks" none 5
      (append_step "import_image"
        (f_string ("Export VM '" ∷ vm.name ∷ "' disk and upload to OpenStack Glance" ∷ [])) none 15
        d))

module _ {F : Type 0} where
  abbrev pub flavor_of : Option (VmMapping F) → Option (FlavorMatch F)
  flavor_of none = none
  flavor_of (some m) = m.flavor_match

  abbrev pub networks_of : Option (VmMapping F) → List NetworkMapping
  networks_of none = []
  networks_of (some m) = m.network_mappings

  abbrev pub disks_of : Option (VmMapping F) → List DiskMapping
  disks_of none = []
  disks_of (some m) = m.disk_mappings

  unfoldable pub flavor_step : Option (FlavorMatch F) → Draft → Draft
  flavor_step none d = d
  flavor_step (some f) d =
      append_step "verify_flavor"
        (f_string ("Verify target flavor '" ∷ f.flavor_name ∷ "' exists in OpenStack" ∷ []))
        (some f.flavor_id) 1 d

  unfoldable pub build_draft : VmSummary → Option (VmMapping F) → Draft
  build_draft vm mapping = closing_steps vm (
      disk_steps (disks_of mapping) (
        network_steps (networks_of mapping)
          (flavor_step (flavor_of mapping) (record { steps = []; order = 1 }))))

  unfoldable pub build_steps : VmSummary → Option (VmMapping F) → List Step
  build_steps vm mapping = (build_draft vm mapping).steps
