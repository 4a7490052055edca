-- ===== src/Vmware/Parallel.antt =====
-- app/services/vmware/parallel_assessment.py: assessing VMs as tasks, each with one retry. What an
-- attempt meets is a parameter; `schedule` is the order in which the tasks run and complete. An
-- evaluation never suspends, so the tasks do not interleave. Durations and timestamps are left
-- out, and the updates of the operation task are a log of its states.
pub mod Accounts
mod Tests
use v_machine.Prelude.{
  ℕ, ◌+◌, ◌-◌, ◌==◌, String, Bool, true, false, Option, none, some, List, [], ◌∷◌, ◌++◌,
  if◌then◌else◌, length, str_eq,
}
use v_machine.Prelude.Exec.{Result, ok, raise, Exec, pure, ◌>>=◌}
use v_machine.Prelude.Text.{f_string, decimal}
use v_machine.Prelude.Dict.{Dict, lookup, insert, Counter}
use v_machine.Openstack.Server.{Exception}
use v_machine.Vmware.Inventory.{VmSummary}
use v_machine.Vmware.Assessment.{ScoredResult, VmMapping, Progress}
use v_machine.Vmware.Compatibility.{evaluate}
use v_machine.Vmware.Mapping.Resources.{Error, Openstack, Engine}
use v_machine.Vmware.Mapping.Flavor.{Floats}
use v_machine.Vmware.Mapping.{map_vm}

pub record SingleVmResult (F : Type 0) : Type 0 where
  pub vm_id : String
  pub vm_name : String
  pub status : String
  pub compatibility_result : Option ScoredResult
  pub mapping_result : Option (VmMapping F)
  pub error_message : Option String

-- What one attempt meets: the inventory's answer, OpenStack's answers, and, if the attempt ends
-- in a TimeoutError, the mapping engine and the metric as it leaves them.
pub record Conditions : Type 0 where
  pub inventory : Result Error (Option VmSummary)
  pub openstack : Openstack
  pub interrupted : Option (Engine × Counter)

-- what the calls of the operation task service come to: creating the task, its update to running, and
-- its last update
pub record OperationCalls : Type 0 where
  pub creates : Result Exception (Unit {0})
  pub starts : Result Exception (Unit {0})
  pub ends : Result Exception (Unit {0})

pub record Service (F : Type 0) : Type 0 where
  pub engine : Engine
  pub unsupported : Counter
  pub timeouts : ℕ
  pub retries : ℕ
  pub depths : List ℕ
  pub tasks : Dict Progress
  pub results : Dict (List (SingleVmResult F))
  pub operation_states : List String

abbrev pub final_status : ℕ → String
final_status failed = if failed == 0 then "completed" else "completed_with_errors"

module _ (fl : Floats) where
  abbrev pub Single : Type 0
  Single = SingleVmResult fl.F

  -- `if include_mapping: mapping = self._mapping_engine.map_vm(vm)`
  unfoldable pub map_if : Bool → Openstack → VmSummary → Exec Error Engine (Option (VmMapping fl.F))
  map_if false os vm = pure none
  map_if true os vm = do mapping ← map_vm fl os vm; pure (some mapping)

  unfoldable pub evaluate_single :
      String → Bool → Conditions → Service fl.F → Result Error Single × Service fl.F
  evaluate_single vm_id include_mapping c s = elim c.inventory [
    | raise e ↦ (raise e, s)
    | ok none ↦ (
      ok (record {
        vm_id = vm_id;
        vm_name = "";
        status = "failed";
        compatibility_result = none;
        mapping_result = none;
        error_message = some (f_string ("VM '" ∷ vm_id ∷ "' not found in inventory" ∷ []));
      }),
      s,
    )
    | ok (some vm) ↦
        let (compatibility, unsupported) = evaluate vm s.unsupported in
        let (mapping, engine) = map_if include_mapping c.openstack vm s.engine in
        let s' = record s { unsupported = unsupported; engine = engine } in
        elim mapping [
          | raise e ↦ (raise e, s')
          | ok mapping_result ↦ (
            ok (record {
              vm_id = vm.id;
              vm_name = vm.name;
              status = "completed";
              compatibility_result = some compatibility;
              mapping_result = mapping_result;
              error_message = none;
            }),
            s',
          )
        ]
  ]

  abbrev pub without_result : String → String → String → Single
  without_result vm_id status message = record {
    vm_id = vm_id;
    vm_name = "";
    status = status;
    compatibility_result = none;
    mapping_result = none;
    error_message = some message;
  }

  abbrev pub leave : Engine × Counter → Service fl.F → Service fl.F
  leave (engine, unsupported) s = record s {
    engine = engine;
    unsupported = unsupported;
    timeouts = s.timeouts + 1;
  }

  abbrev pub is_completed : Single → Bool
  is_completed single = str_eq single.status "completed"

  abbrev pub progress_of : String → ℕ → ℕ → ℕ → ℕ → String → Progress
  progress_of task_id total completed failed in_progress status = record {
    task_id = task_id;
    total_vms = total;
    completed = completed;
    failed = failed;
    in_progress = in_progress;
    status = status;
  }

  -- vmw_assessment_queue_depth.set(depth)
  abbrev pub set_depth : ℕ → Service fl.F → Service fl.F
  set_depth depth s = record s { depths = s.depths ++ depth ∷ [] }

  abbrev pub set_task : Progress → Service fl.F → Service fl.F
  set_task progress s = record s { tasks = insert progress.task_id progress s.tasks }

  abbrev pub get_progress : String → Service fl.F → Option Progress
  get_progress task_id s = lookup task_id s.tasks

  abbrev pub get_results : String → Service fl.F → Option (List Single)
  get_results task_id s = lookup task_id s.results

  -- create_task and the update to running
  unfoldable pub open_task :
      Option OperationCalls → Service fl.F → Result Exception (Unit {0}) × Service fl.F
  open_task none s = (ok tt, s)
  open_task (some calls) s = elim calls.creates [
    | raise e ↦ (raise e, s)
    | ok u ↦ elim calls.starts [
      | raise e ↦ (raise e, s)
      | ok v ↦ (ok tt, record s { operation_states = s.operation_states ++ "running" ∷ [] })
    ]
  ]

  -- the last update, which depends on the number of the failed
  unfoldable pub close_task :
      Option OperationCalls → ℕ → Service fl.F → Result Exception (Unit {0}) × Service fl.F
  close_task none failed s = (ok tt, s)
  close_task (some calls) failed s = elim calls.ends [
    | raise e ↦ (raise e, s)
    | ok u ↦ (
      ok tt,
      record s {
        operation_states =
            s.operation_states ++ (if failed == 0 then "succeeded" else "failed") ∷ [];
      },
    )
  ]

  module _ (conditions : String → ℕ → Conditions) (error_text : Error → String) where
    -- the attempt in the `except` clause; `e` is what the first attempt raised
    unfoldable pub retry : String → Bool → ℕ → Error → Service fl.F → Single × Service fl.F
    retry vm_id include_mapping timeout_seconds e s =
        let c = conditions vm_id 1 in
        elim c.interrupted [
          | some left ↦ (
            without_result vm_id "timeout" (
                f_string
                  ("Evaluation timed out after " ∷ decimal timeout_seconds ∷ "s (retry)" ∷ [])),
            leave left s,
          )
          | none ↦
              let (r, s') = evaluate_single vm_id include_mapping c s in
              elim r [
                | ok single ↦ (single, s')
                | raise e' ↦ (without_result vm_id "failed" (error_text e), s')
              ]
        ]

    unfoldable pub evaluate_one : String → Bool → ℕ → Service fl.F → Single × Service fl.F
    evaluate_one vm_id include_mapping timeout_seconds s =
        let c = conditions vm_id 0 in
        elim c.interrupted [
          | some left ↦ (
            without_result vm_id "timeout"
                (f_string ("Evaluation timed out after " ∷ decimal timeout_seconds ∷ "s" ∷ [])),
            leave left s,
          )
          | none ↦
              let (r, s') = evaluate_single vm_id include_mapping c s in
              elim r [
                | ok single ↦ (single, s')
                | raise e ↦
                    retry vm_id include_mapping timeout_seconds e
                      (record s' { retries = s'.retries + 1 })
              ]
        ]

    module _ (task_id : String) (include_mapping : Bool) (timeout_seconds total : ℕ) where
      -- the loop over the completed tasks: the results, and how many completed and failed
      unfoldable pub collect :
          List String → List Single → ℕ → ℕ → Service fl.F → (List Single × (ℕ × ℕ)) × Service fl.F
      collect [] results completed failed s = ((results, (completed, failed)), s)
      collect (vm_id ∷ schedule) results completed failed s =
          let (single, s1) = evaluate_one vm_id include_mapping timeout_seconds s in
          let done = is_completed single in
          let completed' = if done then completed + 1 else completed in
          let failed' = if done then failed else failed + 1 in
          let remaining = total - completed' - failed' in
          let s2 =
            set_depth remaining
              (set_task (progress_of task_id total completed' failed' remaining "running") s1) in
          collect schedule (results ++ single ∷ []) completed' failed' s2

    -- what is stored and counted before the operation task is created
    abbrev pub enqueued : String → List String → Service fl.F → Service fl.F
    enqueued task_id vm_ids s =
        let total = length vm_ids in
        set_depth total (record (set_task (progress_of task_id total 0 0 total "running") s) {
          results = insert task_id [] s.results;
        })

    -- the loop, and the last writes of the progress and of the results
    unfoldable pub assess_all :
        String → ℕ → List String → Bool → ℕ → Service fl.F → Progress × Service fl.F
    assess_all task_id total schedule include_mapping timeout_seconds s =
        let ((results, (completed, failed)), s') =
          collect task_id include_mapping timeout_seconds total schedule [] 0 0 s in
        let progress = progress_of task_id total completed failed 0 (final_status failed) in
        (progress, record (set_task progress s') { results = insert task_id results s'.results })

    -- what the caller gets after the last update of the operation task, and the `finally`
    abbrev pub closed :
        Progress
        → Result Exception (Unit {0}) × Service fl.F
        → Result Exception Progress × Service fl.F
    closed progress (ok u, s) = (ok progress, set_depth 0 s)
    closed progress (raise e, s) = (raise e, set_depth 0 s)

    -- the assessment once the operation task is running, or what creating it raised
    abbrev pub started :
        String
        → ℕ
        → List String
        → Bool
        → ℕ
        → Option OperationCalls
        → Result Exception (Unit {0}) × Service fl.F
        → Result Exception Progress × Service fl.F
    started task_id total schedule include_mapping timeout_seconds operation (raise e, s) =
        (raise e, s)
    started task_id total schedule include_mapping timeout_seconds operation (ok u, s) =
        let (progress, s') = assess_all task_id total schedule include_mapping timeout_seconds s in
        closed progress (close_task operation progress.failed s')

    -- `schedule` is the order of `vm_ids` in which the tasks complete
    unfoldable pub assess_parallel :
        String
        → List String
        → List String
        → Bool
        → ℕ
        → Option OperationCalls
        → Service fl.F
        → Result Exception Progress × Service fl.F
    assess_parallel task_id vm_ids schedule include_mapping timeout_seconds operation s =
        started task_id (length vm_ids) schedule include_mapping timeout_seconds operation
          (open_task operation (enqueued task_id vm_ids s))
