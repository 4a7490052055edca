-- ===== src/Vmware/Plan.antt =====
-- app/services/vmware/plan_service.py, VMwarePlanService: the migration plan of the compatible VMs.
-- The plan's id and its time of creation are arguments.
pub mod Steps
pub mod Sort
pub mod Order
pub mod Numbering
pub mod Selection
mod Tests
use v_machine.Prelude.{
  ℕ, String, Bool, true, false, not, ◌||◌, Option, none, some, List, [], ◌∷◌, map, sum, length, ltb,
  if◌then◌else◌, str_eq,
}
use v_machine.Prelude.Text.{lower}
use v_machine.Prelude.Dict.{Dict, get_or}
use v_machine.Prelude.Exec.{Result, ok, raise}
use v_machine.Vmware.Inventory.{VmSummary}
use v_machine.Vmware.Assessment.{
  ScoredResult, FlavorMatch, NetworkMapping, DiskMapping, VmMapping, Step, PlanVm, PlanResponse,
}
use v_machine.Vmware.Compatibility.Report.{total_capacity}
use Steps.{build_steps, networks_of, disks_of, flavor_of}
use Sort.{sort}

-- pydantic's refusal of a priority outside 1 to 10
pub data Error : Type 0 where
  validation_error : Error

-- [x for x in xs if x], where x is a text or None
unfoldable pub present : List (Option String) → List String
present [] = []
present (none ∷ xs) = present xs
present (some s ∷ xs) = let rest = present xs in if str_eq s "" then rest else s ∷ rest

unfoldable pub estimate_downtime : VmSummary → ℕ
estimate_downtime vm =
    let power = lower vm.power_state in
    let total_disk : ℕ = elim vm.hardware [ none ↦ 0 | some hw ↦ total_capacity hw.disks ] in
    if str_eq power "poweredoff"
    then 0
    else if str_eq power "suspended"
    then 5
    else if ltb 500 total_disk
    then 30
    else if ltb 100 total_disk
    then 15
    else 10

-- the constraint on MigrationPlanVM.priority
unfoldable pub validated : PlanVm → Result Error PlanVm
validated p = if ltb p.priority 1 || ltb 10 p.priority then raise validation_error else ok p

cons_ok : Result Error PlanVm → Result Error (List PlanVm) → Result Error (List PlanVm)
cons_ok (raise e) rest = raise e
cons_ok (ok p) (raise e) = raise e
cons_ok (ok p) (ok ps) = ok (p ∷ ps)

module _ {F : Type 0} where
  -- what the loop appends for a compatible VM
  unfoldable pub plan_vm : Dict ℕ → VmSummary → Option (VmMapping F) → PlanVm
  plan_vm overrides vm mapping =
      let steps = build_steps vm mapping in
      record {
        vm_id = vm.id;
        vm_name = vm.name;
        priority = get_or vm.id overrides 5;
        target_flavor_id = elim (flavor_of mapping) [ none ↦ none | some f ↦ some f.flavor_id ];
        target_network_ids = present (map (λ nm. nm.openstack_network_id) (networks_of mapping));
        target_volume_types = present (map (λ dm. dm.openstack_volume_type) (disks_of mapping));
        estimated_downtime_minutes = estimate_downtime vm;
        steps = steps;
        estimated_total_minutes = sum (map (λ s. s.estimated_minutes) steps);
      }

  unfoldable pub plan_vms :
      Dict ℕ → List (VmSummary × ScoredResult × Option (VmMapping F)) → Result Error (List PlanVm)
  unfolding cons_ok
  plan_vms overrides [] = ok []
  plan_vms overrides ((vm, compatibility, mapping) ∷ vms) =
      let rest = plan_vms overrides vms in
      if not compatibility.compatible
      then rest
      else cons_ok (validated (plan_vm overrides vm mapping)) rest

  unfoldable pub generate_plan :
      String
      → String
      → Dict ℕ
      → List (VmSummary × ScoredResult × Option (VmMapping F))
      → Result Error PlanResponse
  generate_plan plan_id created_at overrides vms = elim (plan_vms overrides vms) [
    | raise e ↦ raise e
    | ok unsorted ↦
        let plan_vms = sort unsorted in
        ok (record {
          plan_id = plan_id;
          vms = plan_vms;
          total_vms = length plan_vms;
          total_estimated_minutes = sum (map (λ p. p.estimated_total_minutes) plan_vms);
          created_at = created_at;
        })
  ]
