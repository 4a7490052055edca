-- ===== src/Vmware/Client.antt =====
-- app/clients/vmware/connection.py, VMwareClientFactory: what is read of the objects of vCenter. The
-- dicts that the methods return are records.
pub mod Detail
pub mod Paths
use Prim.Native.Char.{Char, code}
use Prim.Native.String
use v_machine.Prelude.{
  ℕ, ◌+◌, ◌*◌, ◌/◌, ◌==◌, ◌&&◌, ◌||◌, String, Bool, true, false, Option, none, some, List, [], ◌∷◌,
  ◌++◌, any, length, str_eq, if◌then◌else◌,
}
use v_machine.Prelude.Text.{f_string, decimal, lower}
use v_machine.Openstack.Summary.{unless_empty}
use v_machine.Vmware.Vim.{
  DeviceClass, virtual_disk, virtual_ethernet_card, vmxnet3, vmxnet2, e1000e, e1000, pcnet32, sriov,
  scsi_controller, ahci_controller, nvme_controller, para_virtual, ide_controller, Backing, Device,
  Hardware, VirtualMachineConfig, Guest, Summary, VirtualMachine, DatastoreCapacity, Datastore,
  Network,
}

-- the dicts of _extract_vm_disks, _extract_vm_nics, _get_nic_types and get_vm_detail
pub record DiskDetail : Type 0 where
  pub disk_file : String
  pub capacity_gb : ℕ
  pub thin_provisioned : Bool
  pub datastore_name : Option String

pub record NicDetail : Type 0 where
  pub label : String
  pub network_name : String
  pub mac_address : Option String
  pub nic_type : String

pub record NicType : Type 0 where
  pub label : String
  pub type : String

pub record MachineDetail : Type 0 where
  pub id : String
  pub name : String
  pub power_state : String
  pub guest_os : String
  pub cpu_count : ℕ
  pub cpu_cores_per_socket : ℕ
  pub memory_mb : ℕ
  pub disks : List DiskDetail
  pub nics : List NicDetail
  pub datastores : List String
  pub cluster_name : Option String
  pub ip_addresses : List String
  pub annotation : String
  pub firmware : Option String
  pub secure_boot_enabled : Option Bool
  pub vmware_tools_status : Option String
  pub disk_controller_types : List String
  pub nic_types : List NicType

-- `x or default`, for a text that may be None
abbrev pub or_text : String → Option String → String
or_text default none = default
or_text default (some s) = if str_eq s "" then default else s

-- `x or y`, for texts that may be None
abbrev or_other : Option String → Option String → Option String
or_other none other = other
or_other (some s) other = if str_eq s "" then other else some s

-- str(x)
abbrev pub str_of : Option String → String
str_of none = "None"
str_of (some s) = s

abbrev is_bracket : Char → Bool
is_bracket c = code c == b'[' || code c == b']'

-- text.strip("[]"), from the left and from the right
unfoldable pub strip_left : String → String
strip_left String.[] = ""
strip_left (String.◌∷◌ c s) =
    let rest = strip_left s in if is_bracket c then rest else String.◌∷◌ c s

abbrev is_nil : String → Bool
is_nil String.[] = true
is_nil (String.◌∷◌ c s) = false

unfoldable pub strip_right : String → String
strip_right String.[] = ""
strip_right (String.◌∷◌ c s) =
    let rest = strip_right s in if is_bracket c && is_nil rest then "" else String.◌∷◌ c rest

abbrev starts_with_space : String → Bool
starts_with_space String.[] = false
starts_with_space (String.◌∷◌ c s) = code c == b' '

-- text.split("] ")[0]
unfoldable pub before_separator : String → String
before_separator String.[] = ""
before_separator (String.◌∷◌ c s) =
    let rest = before_separator s in
    if code c == b']' && starts_with_space s then "" else String.◌∷◌ c rest

-- the name of the datastore in a path such as "[datastore] folder/file.vmdk"
unfoldable pub datastore_of : String → String
datastore_of path = before_separator (strip_right (strip_left path))

-- the files of the layout, each as a disk
unfoldable pub layout_disks : List (List String) → List DiskDetail
layout_disks [] = []
layout_disks ([] ∷ rest) = layout_disks rest
layout_disks ((df ∷ files) ∷ rest) =
    record { disk_file = df; capacity_gb = 0; thin_provisioned = true; datastore_name = none }
    ∷ layout_disks (files ∷ rest)

abbrev backing_file : Device → Option String
backing_file dev = elim dev.backing [ none ↦ none | some b ↦ unless_empty b.file_name ]

abbrev backing_thin : Device → Bool
backing_thin dev = elim dev.backing [
  | none ↦ false
  | some b ↦ elim b.thin_provisioned [ none ↦ false | some thin ↦ thin ]
]

-- capacityInKB // (1024 * 1024), or capacityInBytes // 1024**3, or 0
abbrev pub in_gb : Option ℕ → ℕ → ℕ → ℕ
in_gb none unit other = other
in_gb (some n) unit other = if n == 0 then other else n / unit

abbrev pub device_disk : ℕ → Device → DiskDetail
device_disk n dev = record {
  disk_file = or_text (f_string ("Hard disk " ∷ decimal n ∷ [])) dev.label;
  capacity_gb =
      in_gb dev.capacity_in_kb (1024 * 1024) (in_gb dev.capacity_in_bytes (1024 * 1024 * 1024) 0);
  thin_provisioned = backing_thin dev;
  datastore_name = elim (backing_file dev) [ none ↦ none | some file ↦ some (datastore_of file) ];
}

-- the loop over the devices, after `disks`
unfoldable pub device_disks : List Device → List DiskDetail → List DiskDetail
device_disks [] disks = disks
device_disks (dev ∷ devices) disks = device_disks devices (
    if dev.is_instance virtual_disk
    then disks ++ device_disk (length disks + 1) dev ∷ []
    else disks)

-- the loop that keeps the first disk of each disk_file
unfoldable pub deduplicate : List String → List DiskDetail → List DiskDetail
deduplicate seen [] = []
deduplicate seen (d ∷ disks) =
    let fresh = d ∷ deduplicate (d.disk_file ∷ seen) disks in
    let again = deduplicate seen disks in
    if any (λ k. str_eq k d.disk_file) seen then again else fresh

abbrev pub hardware_of : VirtualMachine → Option Hardware
hardware_of vm = elim vm.config [ none ↦ none | some config ↦ config.hardware ]

abbrev pub devices_of : VirtualMachine → List Device
devices_of vm = elim (hardware_of vm) [ none ↦ [] | some hw ↦ hw.device ]

-- nothing is read where the layout has no disk
unfoldable pub disks_of : List (List String) → List Device → List DiskDetail
disks_of [] devices = []
disks_of (files ∷ rest) devices =
    deduplicate [] (device_disks devices (layout_disks (files ∷ rest)))

unfoldable pub extract_vm_disks : VirtualMachine → List DiskDetail
extract_vm_disks vm = disks_of vm.layout (devices_of vm)

-- the network of an adapter, by its backing
unfoldable pub network_name_of : Device → Option String
network_name_of dev = elim dev.backing [
  | none ↦ none
  | some b ↦ elim (unless_empty b.device_name) [
    | some name ↦ some name
    | none ↦ elim b.port [
      | none ↦ none
      | some key ↦ elim (unless_empty key) [
        | none ↦ none
        | some k ↦ some (f_string ("dvportgroup-" ∷ k ∷ []))
      ]
    ]
  ]
]

unfoldable pub nic_type_of : Device → String
nic_type_of dev =
    if dev.is_instance vmxnet3
    then "vmxnet3"
    else if dev.is_instance vmxnet2
    then "vmxnet2"
    else if dev.is_instance e1000e
    then "e1000e"
    else if dev.is_instance e1000
    then "e1000"
    else if dev.is_instance pcnet32
    then "pcnet32"
    else if dev.is_instance sriov
    then "sriov"
    else "unknown"

-- the loop over the devices, after `n` adapters
unfoldable pub nics_from : ℕ → List Device → List NicDetail
nics_from n [] = []
nics_from n (dev ∷ devices) =
    let nic : NicDetail = record {
      label = or_text (f_string ("NIC " ∷ decimal (n + 1) ∷ [])) dev.label;
      network_name = or_text "unknown" (network_name_of dev);
      mac_address = dev.mac_address;
      nic_type = nic_type_of dev;
    } in
    let counted = nic ∷ nics_from (n + 1) devices in
    let passed = nics_from n devices in
    if dev.is_instance virtual_ethernet_card then counted else passed

unfoldable pub extract_vm_nics : VirtualMachine → List NicDetail
extract_vm_nics vm = nics_from 0 (devices_of vm)

-- the names that are neither absent nor empty
unfoldable pub named : List (Option String) → List String
named [] = []
named (name ∷ refs) = elim (unless_empty name) [ none ↦ named refs | some n ↦ n ∷ named refs ]

abbrev extract_vm_datastores : VirtualMachine → List String
extract_vm_datastores vm = named vm.datastore

unfoldable pub controller_of : Device → List String
controller_of dev =
    if dev.is_instance scsi_controller
    then elim (unless_empty dev.sub_type) [
      | none ↦ "lsilogic" ∷ []
      | some sub_type ↦ lower sub_type ∷ []
    ]
    else if dev.is_instance ahci_controller
    then "sata" ∷ []
    else if dev.is_instance nvme_controller
    then "nvme" ∷ []
    else if dev.is_instance para_virtual
    then "pvscsi" ∷ []
    else if dev.is_instance ide_controller
    then "ide" ∷ []
    else []

unfoldable pub controllers_of : List Device → List String
controllers_of [] = []
controllers_of (dev ∷ devices) = controller_of dev ++ controllers_of devices

unfoldable pub get_disk_controller_types : VirtualMachine → List String
get_disk_controller_types vm = controllers_of (devices_of vm)

unfoldable pub nic_types_of : List Device → List NicType
nic_types_of [] = []
nic_types_of (dev ∷ devices) =
    let rest = nic_types_of devices in
    if dev.is_instance virtual_ethernet_card
    then record { label = or_text "" dev.label; type = nic_type_of dev } ∷ rest
    else rest

unfoldable pub get_nic_types : VirtualMachine → List NicType
get_nic_types vm = nic_types_of (devices_of vm)
