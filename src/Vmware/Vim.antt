-- ===== src/Vmware/Vim.antt =====
-- The objects of vCenter as pyVmomi gives them, by the attributes that app/clients/vmware/connection.py
-- reads. An attribute is `none` where it is absent or, unless said otherwise, None. Python's `isinstance`
-- of a device is a test that the device answers, since the classes are pyVmomi's.
use v_machine.Prelude.{ℕ, String, Bool, Option, List}

-- The classes of vim.vm.device that are tested for.
pub data DeviceClass : Type 0 where
  virtual_disk virtual_ethernet_card vmxnet3 vmxnet2 e1000e e1000 pcnet32 sriov : DeviceClass
  scsi_controller ahci_controller nvme_controller para_virtual ide_controller : DeviceClass

-- `port` has its portgroupKey
pub record Backing : Type 0 where
  pub file_name : Option String
  pub thin_provisioned : Option Bool
  pub device_name : Option String
  pub port : Option (Option String)

-- `label` is that of deviceInfo
pub record Device : Type 0 where
  pub is_instance : DeviceClass → Bool
  pub label : Option String
  pub backing : Option Backing
  pub capacity_in_kb : Option ℕ
  pub capacity_in_bytes : Option ℕ
  pub mac_address : Option String
  pub sub_type : Option String

pub record Hardware : Type 0 where
  pub num_cpu : ℕ
  pub num_cores_per_socket : ℕ
  pub memory_mb : ℕ
  pub device : List Device

-- `firmware` is `some none` where it is None; bootOptions is read for efiSecureBootEnabled alone
pub record VirtualMachineConfig : Type 0 where
  pub hardware : Option Hardware
  pub annotation : Option String
  pub firmware : Option (Option String)
  pub boot_options : Option Bool

-- `net` is the list of the adapters' ipAddress; the other two are `some none` where they are None
pub record Guest : Type 0 where
  pub guest_full_name : Option (Option String)
  pub net : Option (List (List String))
  pub tools_status : Option (Option String)

-- `runtime` is read for powerState, `config` for guestFullName
pub record Summary : Type 0 where
  pub mo_id : Option String
  pub runtime : Option (Option String)
  pub guest_full_name : Option (Option String)

-- `layout` is the list of the diskFile lists of layout.disk; `parent` is known by its name
pub record VirtualMachine : Type 0 where
  pub id : Option String
  pub mo_id : Option String
  pub name : Option String
  pub config : Option VirtualMachineConfig
  pub layout : List (List String)
  pub datastore : List (Option String)
  pub guest : Option Guest
  pub summary : Option Summary
  pub parent : Option (Option String)

pub record DatastoreCapacity : Type 0 where
  pub type : Option String
  pub capacity : Option ℕ
  pub free_space : Option ℕ
  pub accessible : Option Bool

pub record Datastore : Type 0 where
  pub id : Option String
  pub name : Option String
  pub summary : Option DatastoreCapacity
  pub overall_status : Option String

-- `config` is that of a distributed port group, read for vlanId
pub record Network : Type 0 where
  pub id : Option String
  pub name : Option String
  pub is_distributed : Bool
  pub is_opaque : Bool
  pub config : Option (Option ℕ)
