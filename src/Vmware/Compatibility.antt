-- ===== src/Vmware/Compatibility.antt =====
-- app/services/vmware/compatibility.py, VMwareCompatibilityService: the scored verdict on one VM.
-- `evaluate` hands a list of issues through eleven checks; some checks also count the event in
-- the metric vmw_unsupported_hardware_total. Both are the `Report`.
pub mod Report
pub mod Checks
pub mod Devices
pub mod Tally
pub mod Blockers
pub mod Verdict
mod Tests
use v_machine.Prelude.{
  ℕ, ◌+◌, ◌-◌, ◌/◌, ◌%◌, String, Bool, true, false, not, ◌&&◌, List, [], ◌∷◌, leb, if◌then◌else◌,
  any, count_if, str_eq,
}
use v_machine.Prelude.Text.{f_string, decimal}
use v_machine.Prelude.Dict.{Dict, Counter, get_or}
use v_machine.Vmware.Inventory.{VmSummary}
use v_machine.Vmware.Assessment.{Issue, ScoredResult}
use mathlib.Core.List.{foldl}
use Checks.{
  check_power_state, check_os_compat, check_cpu, check_memory, check_disk, check_network,
  check_firmware, check_secure_boot, check_vmware_tools,
}
use Devices.{check_disk_controllers, check_nic_types}

-- SCORE_WEIGHTS, in hundredths and without the sign
abbrev pub score_weights : Dict ℕ
score_weights = ("critical", 30) ∷ ("high", 20) ∷ ("medium", 10) ∷ ("low", 5) ∷ ("info", 0) ∷ []

-- one round of the score loop: `max(0.0, score + weight)` is the subtraction that stops at 0
unfoldable pub apply_weight : ℕ → Issue → ℕ
apply_weight score issue =
    if issue.compatible then score else score - get_or issue.severity score_weights 10

unfoldable pub score_of : List Issue → ℕ
score_of = foldl apply_weight 100

-- `severity == "critical" and not compatible`
abbrev pub is_blocking_critical : Issue → Bool
is_blocking_critical i = str_eq i.severity "critical" && not i.compatible

-- f"{score:.2f}"
unfoldable pub two_decimals : ℕ → String
two_decimals score =
    f_string (decimal (score / 100) ∷ "." ∷ decimal (score / 10 % 10) ∷ decimal (score % 10) ∷ [])

-- the eleven checks, in the order of the source
unfoldable pub run_checks : VmSummary → Report.Report → Report.Report
run_checks vm r = check_nic_types vm (
    check_disk_controllers vm (
      check_vmware_tools vm (
        check_secure_boot vm (
          check_firmware vm (
            check_network vm (
              check_disk vm
                (check_memory vm (check_cpu vm (check_os_compat vm (check_power_state vm r))))))))))

summarise : Bool → ℕ → ℕ → String
summarise compatible critical_count score =
    if compatible
    then f_string ("Compatible (score: " ∷ two_decimals score ∷ ")" ∷ [])
    else f_string (
        "Incompatible — "
        ∷ decimal critical_count
        ∷ " critical issues (score: "
        ∷ two_decimals score
        ∷ ")"
        ∷ [])

unfoldable pub result_of : VmSummary → List Issue → ScoredResult
unfolding summarise
result_of vm issues =
    let score = score_of issues in
    let compatible = leb 50 score && not (any is_blocking_critical issues) in
    record {
      vm_id = vm.id;
      vm_name = vm.name;
      compatible = compatible;
      score = score;
      issues = issues;
      summary = summarise compatible (count_if is_blocking_critical issues) score;
    }

-- `evaluate`: the result, and the metric
unfoldable pub evaluate : VmSummary → Counter → ScoredResult × Counter
evaluate vm unsupported =
    let report = run_checks vm (record { issues = []; unsupported = unsupported }) in
    (result_of vm report.issues, report.unsupported)
