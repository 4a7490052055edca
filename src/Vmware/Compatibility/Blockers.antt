-- ===== src/Vmware/Compatibility/Blockers.antt =====
-- What blocks a migration, read off the VM alone, and what each check adds to the report for it.
use v_machine.Prelude.{
  ℕ, ◌+◌, String, Bool, true, false, not, ◌&&◌, none, some, List, [], ◌∷◌, ◌==◌, if◌then◌else◌, any,
  str_eq, arith, eq_iff,
}
use v_machine.Prelude.Text.{lower}
use v_machine.Prelude.Dict.{lookup}
use v_machine.Vmware.Inventory.{VmSummary, VmHardware}
use v_machine.Vmware.Compatibility.{run_checks}
use v_machine.Vmware.Compatibility.Report.{
  Report, or_empty, os_is_unsupported, is_empty, truthy, member,
}
use v_machine.Vmware.Compatibility.Checks.{
  check_power_state, check_guest_os, check_os_compat, check_cpu, check_memory, check_disk,
  check_network, check_firmware, check_secure_boot, check_vmware_tools,
}
use v_machine.Vmware.Compatibility.Tally.{Adds, tally_laws}
use v_machine.Vmware.Compatibility.Devices.{
  controller_issue, check_controllers, check_disk_controllers, nic_issue, check_nics,
  check_nic_types,
}
use v_machine.Vmware.Inventory.{VmNic}

abbrev pub bit : Bool → ℕ
bit b = if b then 1 else 0

-- A fact about the hardware; a VM without hardware has it.
abbrev pub lacks : (VmHardware → Bool) → VmSummary → Bool
lacks p vm = elim vm.hardware [ none ↦ true | some hw ↦ p hw ]

abbrev pub is_suspended : VmSummary → Bool
is_suspended vm = str_eq (lower vm.power_state) "suspended"

abbrev pub has_no_os : VmSummary → Bool
has_no_os vm = str_eq (or_empty vm.guest_os) ""

abbrev pub has_unsupported_os : VmSummary → Bool
has_unsupported_os vm = not (has_no_os vm) && os_is_unsupported (lower (or_empty vm.guest_os))

abbrev pub has_ide : List String → Bool
has_ide = any (λ ctype. str_eq (lower ctype) "ide")

abbrev pub has_ide_controller : VmSummary → Bool
has_ide_controller vm = elim vm.disk_controller_types [ none ↦ false | some types ↦ has_ide types ]

-- The critical and the high blocking facts.
abbrev pub critical_blockers : VmSummary → ℕ
critical_blockers vm =
    bit (is_suspended vm)
    + bit (has_unsupported_os vm)
    + bit (lacks (λ hw. hw.cpu_count == 0) vm)
    + bit (lacks (λ hw. hw.memory_mb == 0) vm)

abbrev pub high_blockers : VmSummary → ℕ
high_blockers vm =
    bit (has_no_os vm)
    + bit (lacks (λ hw. is_empty hw.disks) vm)
    + bit (truthy vm.secure_boot_enabled)
    + bit (has_ide_controller vm)

check_power_state-Adds :
    (vm : VmSummary) (r : Report) → Adds (bit (is_suspended vm)) 0 r (check_power_state vm r)
unfolding check_power_state lookup
check_power_state-Adds vm r = grind tally_laws

check_os_compat-Adds :
    (vm : VmSummary) (r : Report)
    → Adds (bit (has_unsupported_os vm)) (bit (has_no_os vm)) r (check_os_compat vm r)
unfolding check_os_compat check_guest_os lookup
check_os_compat-Adds vm r = grind tally_laws

check_cpu-Adds :
    (vm : VmSummary) (r : Report)
    → Adds (bit (lacks (λ hw. hw.cpu_count == 0) vm)) 0 r (check_cpu vm r)
unfolding check_cpu lookup
check_cpu-Adds vm r = grind tally_laws

check_memory-Adds :
    (vm : VmSummary) (r : Report)
    → Adds (bit (lacks (λ hw. hw.memory_mb == 0) vm)) 0 r (check_memory vm r)
unfolding check_memory lookup
check_memory-Adds vm r = grind tally_laws

check_disk-Adds :
    (vm : VmSummary) (r : Report)
    → Adds 0 (bit (lacks (λ hw. is_empty hw.disks) vm)) r (check_disk vm r)
unfolding check_disk lookup
check_disk-Adds vm r = grind tally_laws

check_network-Adds : (vm : VmSummary) (r : Report) → Adds 0 0 r (check_network vm r)
unfolding check_network lookup
check_network-Adds vm r = grind tally_laws

check_firmware-Adds : (vm : VmSummary) (r : Report) → Adds 0 0 r (check_firmware vm r)
unfolding check_firmware lookup
check_firmware-Adds vm r = grind tally_laws

check_secure_boot-Adds :
    (vm : VmSummary) (r : Report)
    → Adds 0 (bit (truthy vm.secure_boot_enabled)) r (check_secure_boot vm r)
unfolding check_secure_boot lookup
check_secure_boot-Adds vm r = grind tally_laws

check_vmware_tools-Adds : (vm : VmSummary) (r : Report) → Adds 0 0 r (check_vmware_tools vm r)
unfolding check_vmware_tools lookup
check_vmware_tools-Adds vm r = grind tally_laws

controller_issue-Adds :
    (ctype : String) (r : Report)
    → Adds 0 (bit (str_eq (lower ctype) "ide")) r (controller_issue ctype r)
unfolding controller_issue lookup
controller_issue-Adds ctype r = grind tally_laws

-- However often a type is listed, it is reported once.
check_controllers-Adds :
    (types seen : List String) (r : Report)
    → Adds 0 (bit (has_ide types && not (member "ide" seen))) r (check_controllers types seen r)
unfolding check_controllers member
check_controllers-Adds [] seen r = ground arith
check_controllers-Adds (t ∷ types) seen r = ground (
  arith,
  eq_iff (lower t) "ide",
  controller_issue-Adds t r,
  check_controllers-Adds types seen r,
  check_controllers-Adds types (lower t ∷ seen) (controller_issue t r),
)

nic_issue-Adds : (ntype : String) (r : Report) → Adds 0 0 r (nic_issue ntype r)
unfolding nic_issue lookup
nic_issue-Adds ntype r = grind tally_laws

check_nics-Adds :
    (nics : List VmNic) (seen : List String) (r : Report) → Adds 0 0 r (check_nics nics seen r)
unfolding check_nics
check_nics-Adds [] seen r = ground arith
check_nics-Adds (nic ∷ nics) seen r =
    let ntype = or_empty nic.nic_type in
    ground (
      arith,
      nic_issue-Adds ntype r,
      check_nics-Adds nics seen r,
      check_nics-Adds nics (ntype ∷ seen) (nic_issue ntype r),
    )

check_disk_controllers-Adds :
    (vm : VmSummary) (r : Report)
    → Adds 0 (bit (has_ide_controller vm)) r (check_disk_controllers vm r)
unfolding check_disk_controllers member
check_disk_controllers-Adds vm r = grind (arith, check_controllers-Adds)

check_nic_types-Adds : (vm : VmSummary) (r : Report) → Adds 0 0 r (check_nic_types vm r)
unfolding check_nic_types
check_nic_types-Adds vm r = grind (arith, check_nics-Adds)

pub run_checks-Adds :
    (vm : VmSummary) (r : Report)
    → Adds (critical_blockers vm) (high_blockers vm) r (run_checks vm r)
unfolding run_checks
run_checks-Adds vm r =
    let r1 = check_power_state vm r in
    let r2 = check_os_compat vm r1 in
    let r3 = check_cpu vm r2 in
    let r4 = check_memory vm r3 in
    let r5 = check_disk vm r4 in
    let r6 = check_network vm r5 in
    let r7 = check_firmware vm r6 in
    let r8 = check_secure_boot vm r7 in
    let r9 = check_vmware_tools vm r8 in
    let r10 = check_disk_controllers vm r9 in
    omega (
      arith,
      check_power_state-Adds vm r,
      check_os_compat-Adds vm r1,
      check_cpu-Adds vm r2,
      check_memory-Adds vm r3,
      check_disk-Adds vm r4,
      check_network-Adds vm r5,
      check_firmware-Adds vm r6,
      check_secure_boot-Adds vm r7,
      check_vmware_tools-Adds vm r8,
      check_disk_controllers-Adds vm r9,
      check_nic_types-Adds vm r10,
    )
