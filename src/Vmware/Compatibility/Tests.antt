-- ===== src/Vmware/Compatibility/Tests.antt =====
-- Runs of `evaluate` on two VMs, and the theorems at those.
use v_machine.Prelude.{◌-◌, ◌+◌, ◌*◌, ◌≡◌, refl, false, ◌&&◌, some, none, [], ◌∷◌, leb, ◌==◌}
use v_machine.Prelude.Text.{lower, contains, decimal}
use v_machine.Prelude.Dict.{lookup, insert, incr}
use v_machine.Vmware.Inventory.{VmSummary}
use v_machine.Vmware.Compatibility.{
  apply_weight, score_of, two_decimals, run_checks, result_of, evaluate,
}
use v_machine.Vmware.Compatibility.Report.{
  supported_os_prefixes, unsupported_os_prefixes, add_issue, count_unsupported, os_is_unsupported,
  os_is_supported, member,
}
use v_machine.Vmware.Compatibility.Checks.{
  check_power_state, check_guest_os, check_os_compat, check_cpu, check_memory, check_disk,
  check_network, check_firmware, check_secure_boot, check_vmware_tools,
}
use v_machine.Vmware.Compatibility.Devices.{
  controller_issue, check_controllers, check_disk_controllers, nic_issue, check_nics,
  check_nic_types,
}
use v_machine.Vmware.Compatibility.Blockers.{critical_blockers, high_blockers}
use v_machine.Vmware.Compatibility.Verdict

program : Unit {0}
unfolding lower contains decimal lookup insert incr apply_weight score_of two_decimals run_checks
    result_of evaluate supported_os_prefixes unsupported_os_prefixes add_issue count_unsupported
    os_is_unsupported os_is_supported member check_power_state check_guest_os check_os_compat
    check_cpu check_memory check_disk check_network check_firmware check_secure_boot
    check_vmware_tools controller_issue check_controllers check_disk_controllers nic_issue
    check_nics check_nic_types
program = tt

-- A suspended VM with two IDE controllers and no disks.
abbrev legacy_vm : VmSummary
legacy_vm = record {
  id = "vm-7";
  name = "legacy";
  power_state = "suspended";
  guest_os = some "CentOS 7 (64-bit)";
  hardware = some (record {
    cpu_count = 4;
    cpu_cores_per_socket = 1;
    memory_mb = 8192;
    disks = [];
    nics =
        record {
          label = "NIC 1";
          network_name = "VM Network";
          mac_address = none;
          ip_addresses = [];
          nic_type = some "vmxnet2";
        }
        ∷ [];
  });
  cluster_name = none;
  datastores = [];
  tags = [];
  annotation = none;
  firmware = some "bios";
  secure_boot_enabled = some false;
  vmware_tools_status = some "toolsOk";
  disk_controller_types = some ("IDE" ∷ "ide" ∷ []);
}

legacy_score : (evaluate legacy_vm []).0.score ≡ 30
unfolding program
legacy_score = refl

legacy_summary :
    (evaluate legacy_vm []).0.summary ≡ "Incompatible — 1 critical issues (score: 0.30)"
unfolding program
legacy_summary = refl

legacy_metric : (evaluate legacy_vm []).1 ≡ ("disk_controller", 1) ∷ ("nic", 1) ∷ []
unfolding program
legacy_metric = refl

evaluate_score_example :
    (evaluate legacy_vm []).0.score
    ≡ 100 - (30 * critical_blockers legacy_vm + 20 * high_blockers legacy_vm)
evaluate_score_example = Verdict.evaluate_score legacy_vm []

evaluate_compatible_example :
    (evaluate legacy_vm []).0.compatible
    ≡ (critical_blockers legacy_vm == 0) && leb (high_blockers legacy_vm) 2
evaluate_compatible_example = Verdict.evaluate_compatible legacy_vm []
