-- ===== src/Vmware/Client/Detail.antt =====
-- app/clients/vmware/connection.py: get_vm_detail, get_datastore_detail and get_network_detail. The
-- service reads datastores and networks by copies of the last two. A size in GB is a float: `to_gb` is
-- `round(size / 1024**3, 2)`, and `none_gb` 0.0.
use v_machine.Prelude.{
  ℕ, ◌==◌, String, Bool, true, Option, none, some, List, [], ◌∷◌, ◌++◌, if◌then◌else◌,
}
use v_machine.Vmware.Vim.{VirtualMachine, Datastore, Network}
use v_machine.Vmware.Client.{
  MachineDetail, or_text, or_other, str_of, named, hardware_of, extract_vm_disks, extract_vm_nics,
  get_disk_controller_types, get_nic_types,
}

-- `attribute of x`, where the object or its attribute may be absent
abbrev present : {A B : Type 0} → Option A → (A → Option B) → Option B
present none read = none
present (some x) read = read x

abbrev pub get_or : {A : Type 0} → A → Option A → A
get_or default none = default
get_or default (some a) = a

abbrev pub get_firmware : VirtualMachine → Option String
get_firmware vm = elim (present vm.config (λ c. c.firmware)) [
  | none ↦ none
  | some f ↦ some (str_of f)
]

abbrev pub get_tools_status : VirtualMachine → Option String
get_tools_status vm = elim (present vm.guest (λ g. g.tools_status)) [
  | none ↦ none
  | some t ↦ some (str_of t)
]

abbrev pub get_secure_boot : VirtualMachine → Option Bool
get_secure_boot vm = present vm.config (λ c. c.boot_options)

-- of the guest, or else of the summary's config
abbrev pub guest_fullname : VirtualMachine → Option String
guest_fullname vm = elim (present vm.guest (λ g. g.guest_full_name)) [
  | some name ↦ name
  | none ↦ elim (present vm.summary (λ s. s.guest_full_name)) [ none ↦ none | some name ↦ name ]
]

abbrev power_state_of : VirtualMachine → String
power_state_of vm = elim (present vm.summary (λ s. s.runtime)) [
  | none ↦ "unknown"
  | some state ↦ get_or "unknown" state
]

unfoldable pub joined : List (List String) → List String
joined [] = []
joined (ips ∷ rest) = ips ++ joined rest

unfoldable pub get_vm_detail : VirtualMachine → MachineDetail
get_vm_detail vm = record {
  id = get_or "" (or_other vm.mo_id (present vm.summary (λ s. s.mo_id)));
  name = get_or "" vm.name;
  power_state = power_state_of vm;
  guest_os = or_text "" (guest_fullname vm);
  cpu_count = get_or 0 (present (hardware_of vm) (λ hw. some hw.num_cpu));
  cpu_cores_per_socket = get_or 1 (present (hardware_of vm) (λ hw. some hw.num_cores_per_socket));
  memory_mb = get_or 0 (present (hardware_of vm) (λ hw. some hw.memory_mb));
  disks = extract_vm_disks vm;
  nics = extract_vm_nics vm;
  datastores = named vm.datastore;
  cluster_name = present vm.parent (λ name. name);
  ip_addresses = joined (get_or [] (present vm.guest (λ g. g.net)));
  annotation = or_text "" (present vm.config (λ c. c.annotation));
  firmware = get_firmware vm;
  secure_boot_enabled = get_secure_boot vm;
  vmware_tools_status = get_tools_status vm;
  disk_controller_types = get_disk_controller_types vm;
  nic_types = get_nic_types vm;
}

pub record DatastoreDetail (Float : Type 0) : Type 0 where
  pub name : String
  pub type : String
  pub capacity_gb : Float
  pub free_gb : Float
  pub accessible : Bool
  pub maintenance_mode : String

pub record NetworkDetail : Type 0 where
  pub name : String
  pub type : String
  pub vlan_id : Option ℕ
  pub accessible : Bool

module _ {Float : Type 0} (to_gb : ℕ → Float) (none_gb : Float) where
  abbrev size_gb : Option ℕ → Float
  size_gb none = none_gb
  size_gb (some size) = if size == 0 then none_gb else to_gb size

  unfoldable pub get_datastore_detail : Datastore → DatastoreDetail Float
  get_datastore_detail ds = record {
    name = get_or "" ds.name;
    type = get_or "" (present ds.summary (λ s. s.type));
    capacity_gb = size_gb (present ds.summary (λ s. s.capacity));
    free_gb = size_gb (present ds.summary (λ s. s.free_space));
    accessible = get_or true (present ds.summary (λ s. s.accessible));
    maintenance_mode = get_or "normal" ds.overall_status;
  }

unfoldable pub get_network_detail : Network → NetworkDetail
get_network_detail net = record {
  name = get_or "" net.name;
  type =
      if net.is_distributed then "distributed" else if net.is_opaque then "opaque" else "network";
  vlan_id = if net.is_distributed then present net.config (λ vlan. vlan) else none;
  accessible = true;
}
