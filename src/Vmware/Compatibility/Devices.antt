-- ===== src/Vmware/Compatibility/Devices.antt =====
-- app/services/vmware/compatibility.py: the checks on disk controllers and network adapters, which
-- report each type once.
use v_machine.Prelude.{String, true, false, ◌||◌, none, some, List, [], ◌∷◌, if◌then◌else◌, str_eq}
use v_machine.Prelude.Text.{lower, f_string}
use v_machine.Vmware.Inventory.{VmNic, VmSummary}
use v_machine.Vmware.Compatibility.Report.{Report, or_empty, add_issue, count_unsupported, member}

unfoldable pub controller_issue : String → Report → Report
controller_issue ctype r =
    let ctype_lower = lower ctype in
    if str_eq ctype_lower "ide"
    then count_unsupported "disk_controller" (
        add_issue "high" "disk_controller"
          (f_string (
            "Disk controller type '" ∷ ctype
            ∷ "' may not be supported in OpenStack — consider converting to virtio/scsi" ∷ []))
          false r)
    else if str_eq ctype_lower "lsilogic"
    then add_issue "low" "disk_controller"
        (f_string ("Disk controller type '" ∷ ctype ∷ "' is legacy but generally compatible" ∷ []))
        true r
    else if str_eq ctype_lower "nvme"
    then count_unsupported "disk_controller" (
        add_issue "medium" "disk_controller"
          (f_string (
            "Disk controller type '" ∷ ctype ∷ "' requires OpenStack with NVMe emulation support"
            ∷ []))
          true r)
    else r

-- the loop, with the set of the types seen so far
unfoldable pub check_controllers : List String → List String → Report → Report
check_controllers [] seen r = r
check_controllers (ctype ∷ rest) seen r =
    let skip = check_controllers rest seen r in
    let visit = check_controllers rest (lower ctype ∷ seen) (controller_issue ctype r) in
    if member (lower ctype) seen then skip else visit

unfoldable pub check_disk_controllers : VmSummary → Report → Report
check_disk_controllers vm r = elim vm.disk_controller_types [
  | none ↦ r
  | some controllers ↦ check_controllers controllers [] r
]

unfoldable pub nic_issue : String → Report → Report
nic_issue ntype r =
    if str_eq ntype "e1000"
    then add_issue "low" "nic"
        "NIC type 'e1000' is legacy — consider upgrading to vmxnet3 or virtio" true r
    else if str_eq ntype "vmxnet2"
    then count_unsupported "nic" (
        add_issue "medium" "nic"
          "NIC type 'vmxnet2' requires OpenStack with vmxnet3 support — consider converting to virtio"
          true r)
    else if str_eq ntype "sriov"
    then count_unsupported "nic" (
        add_issue "medium" "nic"
          "NIC type 'sriov' requires OpenStack SR-IOV support — passthrough configuration needed"
          true r)
    else if str_eq ntype "unknown"
    then count_unsupported "nic"
        (add_issue "medium" "nic" "Unknown NIC type detected — compatibility not guaranteed" true r)
    else r

unfoldable pub check_nics : List VmNic → List String → Report → Report
check_nics [] seen r = r
check_nics (nic ∷ rest) seen r =
    let ntype = or_empty nic.nic_type in
    let skip = check_nics rest seen r in
    let visit = check_nics rest (ntype ∷ seen) (nic_issue ntype r) in
    if str_eq ntype "" || member ntype seen then skip else visit

unfoldable pub check_nic_types : VmSummary → Report → Report
check_nic_types vm r = elim vm.hardware [ none ↦ r | some hw ↦ check_nics hw.nics [] r ]
