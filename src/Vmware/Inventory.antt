-- ===== src/Vmware/Inventory.antt =====
-- app/schemas/vmware/inventory.py: the VM data that an assessment reads. Sizes and counts are
-- natural numbers, as vCenter reports them.
use v_machine.Prelude.{ℕ, String, Bool, Option, List}

pub record VmDisk : Type 0 where
  pub label : String
  pub capacity_gb : ℕ
  pub thin_provisioned : Bool
  pub datastore_name : Option String
  pub controller_type : Option String

pub record VmNic : Type 0 where
  pub label : String
  pub network_name : String
  pub mac_address : Option String
  pub ip_addresses : List String
  pub nic_type : Option String

pub record VmHardware : Type 0 where
  pub cpu_count : ℕ
  pub cpu_cores_per_socket : ℕ
  pub memory_mb : ℕ
  pub disks : List VmDisk
  pub nics : List VmNic

pub record VmSummary : Type 0 where
  pub id : String
  pub name : String
  pub power_state : String
  pub guest_os : Option String
  pub hardware : Option VmHardware
  pub cluster_name : Option String
  pub datastores : List String
  pub tags : List String
  pub annotation : Option String
  pub firmware : Option String
  pub secure_boot_enabled : Option Bool
  pub vmware_tools_status : Option String
  pub disk_controller_types : Option (List String)
