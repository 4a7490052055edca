-- ===== src/Vmware/Plan/Tests.antt =====
-- A plan for three VMs, and the theorems at it.
use mathlib.Core.List.{Perm}
use v_machine.Prelude.{
  ℕ, ◌≡◌, refl, String, true, false, Option, some, none, List, [], ◌∷◌, map, length, All, arith,
}
use v_machine.Prelude.Dict.{Dict, lookup}
use v_machine.Prelude.Exec.{Result, ok, raise}
use v_machine.Prelude.Text.{lower}
use v_machine.Vmware.Inventory.{VmSummary}
use v_machine.Vmware.Assessment.{ScoredResult, VmMapping, PlanResponse}
use v_machine.Vmware.Plan.{
  Error, validation_error, present, estimate_downtime, plan_vm, validated, plan_vms, generate_plan,
}
use v_machine.Vmware.Plan.Sort.{insert, sort}
use v_machine.Vmware.Plan.Steps.{
  append_step, network_step, network_steps, disk_step, disk_steps, closing_steps, flavor_step,
  build_draft, build_steps,
}
use v_machine.Vmware.Plan.Numbering.{NumberedFrom, actions, minutes, build_steps_lem}
use v_machine.Vmware.Plan.Order.{IsSorted}
use v_machine.Vmware.Plan.Selection.{
  IsAllowed, planned, total_minutes, generate_plan_ok, generate_plan_total,
}

program : Unit {0}
unfolding lookup lower present estimate_downtime plan_vm validated plan_vms generate_plan insert
    sort append_step network_step network_steps disk_step disk_steps closing_steps flavor_step
    build_draft build_steps
program = tt

abbrev vm : String → String → VmSummary
vm id name = record {
  id = id;
  name = name;
  power_state = "poweredOff";
  guest_os = none;
  hardware = none;
  cluster_name = none;
  datastores = [];
  tags = [];
  annotation = none;
  firmware = none;
  secure_boot_enabled = none;
  vmware_tools_status = none;
  disk_controller_types = none;
}

abbrev passed : ScoredResult
passed = record {
  vm_id = "";
  vm_name = "";
  compatible = true;
  score = 100;
  issues = [];
  summary = "";
}

abbrev failed : ScoredResult
failed = record passed { compatible = false }

abbrev mapping : VmMapping ℕ
mapping = record {
  vm_id = "1";
  vm_name = "b";
  flavor_match = none;
  network_mappings =
      record {
        vm_network = "VM Network";
        openstack_network_id = none;
        openstack_network_name = none;
        match_type = "not_found";
        confidence = 0;
      }
      ∷ [];
  disk_mappings =
      record {
        vm_disk_label = "disk";
        vm_disk_gb = 40;
        openstack_volume_type = some "ceph";
        openstack_size_gb = 40;
        bootable = true;
      }
      ∷ [];
}

abbrev candidates : List (VmSummary × ScoredResult × Option (VmMapping ℕ))
candidates =
    (vm "1" "b", passed, some mapping)
    ∷ (vm "2" "a", passed, none)
    ∷ (vm "3" "c", failed, none)
    ∷ (vm "4" "z", passed, none)
    ∷ []

abbrev overrides : Dict ℕ
overrides = ("4", 1) ∷ []

abbrev names : Result Error PlanResponse → List String
names (ok plan) = map (λ p. p.vm_name) plan.vms
names (raise e) = []

-- The urgent VM stands first, then the others by name; the incompatible one is left out.
plan_order : names (generate_plan "p" "t" overrides candidates) ≡ "z" ∷ "a" ∷ "b" ∷ []
unfolding program
plan_order = refl

plan_refused : generate_plan "p" "t" (("2", 11) ∷ []) candidates ≡ raise validation_error
unfolding program
plan_refused = refl

build_steps_example :
    NumberedFrom 1 (build_steps (vm "1" "b") (some mapping))
    × (actions (build_steps (vm "1" "b") (some mapping))
        ≡ "create_network" ∷ "create_volume" ∷ "import_image" ∷ "create_server" ∷ "cleanup" ∷ [])
    × (minutes (build_steps (vm "1" "b") (some mapping)) ≡ 26)
build_steps_example = build_steps_lem (vm "1" "b") (some mapping)

allowed : All IsAllowed (planned overrides candidates)
unfolding lookup plan_vm
allowed = omega arith

generate_plan_total_example :
    (plan : PlanResponse) × (generate_plan "p" "t" overrides candidates ≡ ok plan)
generate_plan_total_example = generate_plan_total overrides "p" "t" candidates allowed

abbrev the_plan : PlanResponse
the_plan = record {
  plan_id = "p";
  vms =
      plan_vm {F = ℕ} overrides (vm "4" "z") none
      ∷ plan_vm {F = ℕ} overrides (vm "2" "a") none
      ∷ plan_vm overrides (vm "1" "b") (some mapping)
      ∷ [];
  total_vms = 3;
  total_estimated_minutes = 68;
  created_at = "t";
}

plan_runs : generate_plan "p" "t" overrides candidates ≡ ok the_plan
unfolding program
plan_runs = refl

generate_plan_ok_example :
    Perm the_plan.vms (planned overrides candidates)
    × IsSorted the_plan.vms
    × All IsAllowed the_plan.vms
    × (the_plan.total_vms ≡ length (planned overrides candidates))
    × (the_plan.total_estimated_minutes ≡ total_minutes (planned overrides candidates))
generate_plan_ok_example = generate_plan_ok overrides "p" "t" candidates the_plan plan_runs
