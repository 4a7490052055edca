-- ===== src/Vmware/Compatibility/Checks.antt =====
-- app/services/vmware/compatibility.py: the checks on power, guest system, sizes and firmware, each
-- a function on the report so far.
use v_machine.Prelude.{
  String, true, false, ◌||◌, none, some, [], ◌∷◌, ltb, leb, if◌then◌else◌, str_eq,
}
use v_machine.Prelude.Text.{lower, contains, f_string, decimal}
use v_machine.Vmware.Inventory.{VmSummary}
use v_machine.Vmware.Compatibility.Report.{
  Report, or_empty, add_issue, count_unsupported, os_is_unsupported, os_is_supported,
  total_capacity, is_empty, truthy,
}

unfoldable pub check_power_state : VmSummary → Report → Report
check_power_state vm r =
    if str_eq (lower vm.power_state) "suspended"
    then add_issue "critical" "os" "VM is suspended — must be powered on before migration" false r
    else r

unfoldable pub check_guest_os : String → Report → Report
check_guest_os guest_os r =
    if str_eq guest_os ""
    then add_issue "high" "os" "Guest OS not detected — unable to verify compatibility" false r
    else if os_is_unsupported (lower guest_os)
    then count_unsupported "os"
        (add_issue "critical" "os" (f_string ("Unsupported guest OS: " ∷ guest_os ∷ [])) false r)
    else if os_is_supported (lower guest_os)
    then r
    else add_issue "low" "os"
        (f_string ("Unknown guest OS '" ∷ guest_os ∷ "' — compatibility not guaranteed" ∷ [])) true
        r

unfoldable pub check_os_compat : VmSummary → Report → Report
check_os_compat vm r = check_guest_os (or_empty vm.guest_os) r

unfoldable pub check_cpu : VmSummary → Report → Report
check_cpu vm r =
    let missing = add_issue "critical" "cpu" "VM has no vCPUs configured" false r in
    elim vm.hardware [
      | none ↦ missing
      | some hw ↦
          if leb hw.cpu_count 0
          then missing
          else if ltb 128 hw.cpu_count
          then add_issue "low" "cpu"
              (f_string (
                "VM has "
                ∷ decimal hw.cpu_count
                ∷ " vCPUs — may exceed OpenStack quota limits"
                ∷ []))
              true r
          else r
    ]

unfoldable pub check_memory : VmSummary → Report → Report
check_memory vm r =
    let missing = add_issue "critical" "memory" "VM has no memory configured" false r in
    elim vm.hardware [
      | none ↦ missing
      | some hw ↦
          if leb hw.memory_mb 0
          then missing
          else if ltb 524288 hw.memory_mb
          then add_issue "low" "memory"
              (f_string
                ("VM has " ∷ decimal hw.memory_mb ∷ " MB RAM — may exceed OpenStack limits" ∷ []))
              true r
          else r
    ]

unfoldable pub check_disk : VmSummary → Report → Report
check_disk vm r =
    let missing = add_issue "high" "disk" "VM has no disks attached" false r in
    elim vm.hardware [
      | none ↦ missing
      | some hw ↦
          if is_empty hw.disks
          then missing
          else if ltb 2000 (total_capacity hw.disks)
          then add_issue "low" "disk"
              (f_string (
                "VM has "
                ∷ decimal (total_capacity hw.disks)
                ∷ " GB total disk — large volume migration may be slow"
                ∷ []))
              true r
          else r
    ]

unfoldable pub check_network : VmSummary → Report → Report
check_network vm r =
    let isolated =
      add_issue "low" "network" "VM has no network adapters — will be isolated after migration" true
        r in
    elim vm.hardware [ none ↦ isolated | some hw ↦ if is_empty hw.nics then isolated else r ]

unfoldable pub check_firmware : VmSummary → Report → Report
check_firmware vm r =
    if str_eq (lower (or_empty vm.firmware)) "efi"
    then count_unsupported "firmware" (
        add_issue "medium" "firmware"
          "VM uses EFI/UEFI firmware — requires OpenStack UEFI support (hw_firmware_type=uefi)" true
          r)
    else r

unfoldable pub check_secure_boot : VmSummary → Report → Report
check_secure_boot vm r =
    if truthy vm.secure_boot_enabled
    then count_unsupported "firmware" (
        add_issue "high" "firmware"
          "Secure Boot is enabled — requires OpenStack with UEFI + hw_firmware_type=uefi + secure boot support"
          false r)
    else r

unfoldable pub check_vmware_tools : VmSummary → Report → Report
check_vmware_tools vm r =
    let status = or_empty vm.vmware_tools_status in
    if str_eq status ""
    then r
    else if contains "notinstalled" (lower status) || contains "notrunning" (lower status)
    then add_issue "medium" "vmware_tools"
        (f_string (
          "VMware Tools status: " ∷ status
          ∷ " — guest IP detection and clean shutdown may be affected" ∷ []))
        true r
    else r
