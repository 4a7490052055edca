-- ===== src/Endpoints/Vmware.antt =====
-- app/api/v1/endpoints/vmware/: the requests that synchronise the inventory, assess VMs and plan their
-- migration. Each request has services of its own, which app/api/deps/services.py makes; the
-- connection to vCenter and the metrics outlive it.
use v_machine.Prelude.{
  ℕ, ◌+◌, zero, suc, String, Bool, true, Option, none, some, List, [], ◌∷◌, map, sum, length, ◌-◌,
  if◌then◌else◌,
}
use v_machine.Prelude.Dict.{Dict, Counter}
use v_machine.Prelude.Exec.{Result, ok, raise, Exec, pure, throw, ◌>>=◌}
use v_machine.Prelude.Text.{f_string}
use v_machine.Database.{Database}
use v_machine.Openstack.Server.{Exception, app, validation_error, sdk_error}
use v_machine.Openstack.Connection as Connection
use v_machine.Vmware.Inventory.{VmSummary}
use v_machine.Vmware.Assessment.{ScoredResult, VmMapping, PlanResponse}
use v_machine.Vmware.Compatibility as Compatibility
use v_machine.Vmware.Mapping.Flavor.{Floats}
use v_machine.Vmware.Mapping.Resources.{Openstack, Engine, integration, value_error}
use v_machine.Vmware.Mapping.Resources as Mapping
use v_machine.Vmware.Mapping.{map_vm}
use v_machine.Vmware.Parallel.{map_if}
use v_machine.Vmware.Plan.{generate_plan}
use v_machine.Vmware.Plan as Plan
use v_machine.Vmware.Pool.{integration_error, body_error}
use v_machine.Vmware.Factory.{
  Failure, client_exception, pool_error, other_error, Vsphere, VcenterWorld,
}
use v_machine.Vmware.Discovery.{Inventory, InventorySyncResponse, get_vm}
use v_machine.Vmware.Discovery as Discovery
use v_machine.Orchestration.Tasks.{OperationTask}
use v_machine.Endpoints.Tracking.{Job, Endpoint, untargeted, with_task, tracked}

-- the exceptions of the parts, as they reach the endpoint
abbrev pub of_failure : Failure → Exception
of_failure (client_exception message) = app message 500 "vmware_integration_error"
of_failure (pool_error (integration_error message)) = app message 500 "vmware_integration_error"
of_failure (pool_error (body_error name)) = sdk_error name
of_failure (other_error name) = sdk_error name

abbrev pub of_mapping : Mapping.Error → Exception
of_mapping (integration message) = Connection.integration_error message
of_mapping value_error = sdk_error "ValueError"

abbrev pub of_plan : Plan.Error → Exception
of_plan Plan.validation_error = validation_error

unfoldable pub converted : {E A : Type 0} → (E → Exception) → Result E A → Result Exception A
converted to_exception (ok a) = ok a
converted to_exception (raise e) = raise (to_exception e)

-- AssessmentRequest and MigrationPlanRequest
pub record AssessmentRequest : Type 0 where
  pub vm_ids : List String
  pub include_mapping : Bool

pub record MigrationPlanRequest : Type 0 where
  pub vm_ids : List String
  pub priority_overrides : Dict ℕ

pub record AssessmentResult (F : Type 0) : Type 0 where
  pub vm_id : String
  pub vm_name : String
  pub compatibility : ScoredResult
  pub mapping : Option (VmMapping F)

pub record AssessmentResponse (F : Type 0) : Type 0 where
  pub assessments : List (AssessmentResult F)
  pub summary : Dict ℕ
  pub operation_task_id : Option String

-- what a request to assess works on: vCenter with the inventory, the mapping engine, and the metric of
-- unsupported VMs
pub record AssessmentWorld (Float : Type 0) : Type 0 where
  pub vcenter : VcenterWorld (Inventory Float)
  pub engine : Engine
  pub unsupported : Counter

-- ",".join(vm_ids[:n])
unfoldable pub comma_join : ℕ → List String → String
comma_join n [] = ""
comma_join zero (id ∷ ids) = ""
comma_join (suc n) (id ∷ []) = id
comma_join (suc zero) (id ∷ next ∷ ids) = id
comma_join (suc (suc n)) (id ∷ next ∷ ids) =
    f_string (id ∷ "," ∷ comma_join (suc n) (next ∷ ids) ∷ [])

unfoldable pub compatible_count : {F : Type 0} → List (AssessmentResult F) → ℕ
compatible_count assessments =
    sum (map (λ a. if a.compatibility.compatible then 1 else 0) assessments)

unfoldable pub summary_of : {F : Type 0} → List (AssessmentResult F) → Dict ℕ
summary_of assessments =
    let compatible = compatible_count assessments in
    ("total", length assessments)
    ∷ ("compatible", compatible)
    ∷ ("incompatible", length assessments - compatible)
    ∷ ("warning_count", sum (map (λ a. length a.compatibility.issues) assessments))
    ∷ []

-- the constraint on vm_ids of both requests
abbrev pub at_least_one : {S A : Type 0} → List String → Exec Exception S A → Exec Exception S A
at_least_one [] m = throw validation_error
at_least_one (id ∷ ids) m = m

module _ (fl : Floats) (os : Openstack) (vsphere : Vsphere) {Float : Type 0} (to_gb : ℕ → Float)
    (none_gb : Float) where
  abbrev pub Assess : Type 0 → Type 0
  Assess A = Exec Exception (AssessmentWorld Float) A

  abbrev pub now : AssessmentWorld Float → ℕ
  now w = w.vcenter.clock

  -- a lookup, when `pause` has passed since the last one
  unfoldable pub found_vm : ℕ → String → Assess (Option VmSummary)
  found_vm pause vm_id w =
      let later = record w.vcenter { clock = w.vcenter.clock + pause } in
      let (r, v) = get_vm to_gb none_gb vsphere vm_id later in
      (converted of_failure r, record w { vcenter = v })

  unfoldable pub evaluate : VmSummary → Assess ScoredResult
  evaluate vm w =
      let (r, unsupported) = Compatibility.evaluate vm w.unsupported in
      (ok r, record w { unsupported = unsupported })

  unfoldable pub mapped : {A : Type 0} → Exec Mapping.Error Engine A → Assess A
  mapped m w =
      let (r, engine) = m w.engine in (converted of_mapping r, record w { engine = engine })

  unfoldable pub assess_vm : Bool → VmSummary → Assess (AssessmentResult fl.F)
  assess_vm include_mapping vm = do
    compatibility ← evaluate vm
    mapping ← mapped (map_if fl include_mapping os vm)
    pure (record {
      vm_id = vm.id;
      vm_name = vm.name;
      compatibility = compatibility;
      mapping = mapping;
    })

  -- the body of the loops for a VM that the inventory may have, before the `rest`
  unfoldable pub each_found :
      {A : Type 0} → (VmSummary → Assess A) → Assess (List A) → Option VmSummary → Assess (List A)
  each_found body rest none = rest
  each_found body rest (some vm) = do a ← body vm; found ← rest; pure (a ∷ found)

  -- `pause ids` is the time that has passed before the lookup after which `ids` are left
  unfoldable pub for_each :
      {A : Type 0} → (List String → ℕ) → (VmSummary → Assess A) → List String → Assess (List A)
  for_each pause body [] = pure []
  for_each pause body (vm_id ∷ ids) = do
    vm ← found_vm (pause ids) vm_id
    each_found body (for_each pause body ids) vm

  abbrev pub assessment :
      (List String → ℕ)
      → AssessmentRequest
      → Job (AssessmentWorld Float) (List (AssessmentResult fl.F)) (AssessmentResponse fl.F)
  assessment pause payload =
      untargeted "vmware_assessment" "assessment" (comma_join 5 payload.vm_ids)
        (for_each pause (assess_vm payload.include_mapping) payload.vm_ids)
        (λ assessments task_id. record {
          assessments = assessments;
          summary = summary_of assessments;
          operation_task_id = some task_id;
        })

  unfoldable pub planned_vm :
      VmSummary → Assess (VmSummary × ScoredResult × Option (VmMapping fl.F))
  planned_vm vm = do
    compatibility ← evaluate vm
    mapping ← mapped (map_vm fl os vm)
    pure (vm, compatibility, some mapping)

  unfoldable pub planned : Result Plan.Error PlanResponse → Assess PlanResponse
  planned r w = (converted of_plan r, w)

  -- `plan_id` and `created_at` are the id and the time that generate_plan makes
  unfoldable pub plan :
      (List String → ℕ) → String → String → MigrationPlanRequest → Assess PlanResponse
  plan pause plan_id created_at payload = do
    vms ← for_each pause planned_vm payload.vm_ids
    planned (generate_plan plan_id created_at payload.priority_overrides vms)

  module _ (db : Database OperationTask) (others : Exception → String) where
    unfoldable pub assess_vms :
        (List String → ℕ)
        → List String
        → Endpoint db (AssessmentWorld Float) (AssessmentResponse fl.F)
    assess_vms pause vm_ids = at_least_one vm_ids (
        tracked db others now
          (assessment pause (record { vm_ids = vm_ids; include_mapping = true })))

    unfoldable pub create_migration_plan :
        (List String → ℕ)
        → String
        → String
        → List String
        → Endpoint db (AssessmentWorld Float) (PlanResponse × String)
    create_migration_plan pause plan_id created_at vm_ids = at_least_one vm_ids (
        tracked db others now (
          untargeted "vmware_migration_plan" "plan" (comma_join 5 vm_ids)
            (plan pause plan_id created_at (record { vm_ids = vm_ids; priority_overrides = [] }))
            with_task))

    -- the id of the task, an argument of the call, is only put in its response
    unfoldable pub sync_inventory :
        Endpoint db (VcenterWorld (Inventory Float)) InventorySyncResponse
    sync_inventory =
        tracked db others (λ w. w.clock)
          (untargeted "vmware_inventory_sync" "inventory" "vmware"
            (λ w.
              let (r, v) = Discovery.sync_inventory to_gb none_gb vsphere none w in
              (converted of_failure r, v))
            (λ result task_id. record result { operation_task_id = some task_id }))
