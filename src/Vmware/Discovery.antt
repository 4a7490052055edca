-- ===== src/Vmware/Discovery.antt =====
-- app/services/vmware/inventory_service.py, VMwareInventoryService: the cached listings and the
-- synchronisation, whose writes are tasks that are scheduled and run later (`upsert`), with the
-- responses of app/schemas/vmware/inventory.py.
pub mod Boot
pub mod Caching
pub mod Once
pub mod Scheduling
pub mod Syncing
pub mod Samples
mod Tests
use v_machine.Prelude.{
  ℕ, ◌+◌, String, Bool, true, false, Option, none, some, List, [], ◌∷◌, ◌++◌, map, length, str_eq,
  if◌then◌else◌,
}
use v_machine.Prelude.Exec.{ok, raise, Exec, pure, throw, modify, ◌>>=◌, ◌>>◌}
use v_machine.Cache.{TtlCache, invalidate_all}
use v_machine.Cache as Ttl
use v_machine.Vmware.Inventory.{VmDisk, VmNic, VmHardware, VmSummary}
use v_machine.Vmware.Vim.{VirtualMachine, Datastore, Network}
use v_machine.Vmware.Client.{DiskDetail, NicDetail, MachineDetail}
use v_machine.Vmware.Client.Detail.{
  DatastoreDetail, NetworkDetail, get_vm_detail, get_datastore_detail, get_network_detail,
}
use v_machine.Vmware.Factory.{Failure, other_error, Vsphere, VcenterWorld, Discovery}
use v_machine.Vmware.Factory as Factory

abbrev pub disk_of : DiskDetail → VmDisk
disk_of d = record {
  label = d.disk_file;
  capacity_gb = d.capacity_gb;
  thin_provisioned = d.thin_provisioned;
  datastore_name = d.datastore_name;
  controller_type = none;
}

-- the dict of an adapter has no addresses
abbrev pub nic_of : NicDetail → VmNic
nic_of n = record {
  label = n.label;
  network_name = n.network_name;
  mac_address = n.mac_address;
  ip_addresses = [];
  nic_type = some n.nic_type;
}

unfoldable pub build_vm_summary : VirtualMachine → VmSummary
build_vm_summary vm =
    let detail = get_vm_detail vm in
    record {
      id = detail.id;
      name = detail.name;
      power_state = detail.power_state;
      guest_os = some detail.guest_os;
      hardware = some (record {
        cpu_count = detail.cpu_count;
        cpu_cores_per_socket = detail.cpu_cores_per_socket;
        memory_mb = detail.memory_mb;
        disks = map disk_of detail.disks;
        nics = map nic_of detail.nics;
      });
      cluster_name = detail.cluster_name;
      datastores = detail.datastores;
      tags = [];
      annotation = some detail.annotation;
      firmware = detail.firmware;
      secure_boot_enabled = detail.secure_boot_enabled;
      vmware_tools_status = detail.vmware_tools_status;
      disk_controller_types = some detail.disk_controller_types;
    }

-- raw_data of a snapshot
pub data RawData (Float : Type 0) : Type 0 where
  machine_data : MachineDetail → RawData Float
  datastore_data : DatastoreDetail Float → RawData Float
  network_data : NetworkDetail → RawData Float

-- the arguments of _upsert_snapshot
pub record Snapshot (Float : Type 0) : Type 0 where
  pub resource_type : String
  pub external_id : String
  pub resource_name : String
  pub raw_data : RawData Float

pub record InventorySyncResponse : Type 0 where
  pub synced_vms : ℕ
  pub synced_datastores : ℕ
  pub synced_networks : ℕ
  pub operation_task_id : Option String

-- The service: its three caches, and the writes that were scheduled. The summary of a datastore and of
-- a network has the fields of its detail.
pub record Inventory (Float : Type 0) : Type 0 where
  pub vm_cache : TtlCache (List VmSummary)
  pub ds_cache : TtlCache (List (DatastoreDetail Float))
  pub net_cache : TtlCache (List NetworkDetail)
  pub scheduled : List (Snapshot Float)

-- the cached items, or those that are fetched
unfoldable pub or_fetch : {R A : Type 0} → Option A → Discovery R A → Discovery R A
or_fetch none fetch = fetch
or_fetch (some items) fetch = pure items

-- the loop of get_vm
unfoldable pub vm_of : String → List VmSummary → Option VmSummary
vm_of vm_id [] = none
vm_of vm_id (vm ∷ vms) = if str_eq vm.id vm_id then some vm else vm_of vm_id vms

module _ {Float : Type 0} (to_gb : ℕ → Float) (none_gb : Float) (vsphere : Vsphere) where
  abbrev pub World : Type 0
  World = VcenterWorld (Inventory Float)

  abbrev pub Service : Type 0 → Type 0
  Service A = Discovery (Inventory Float) A

  -- `if use_cache: cached = cache.get(key)`, of the VMs
  unfoldable pub cached_vms : Bool → Service (Option (List VmSummary))
  cached_vms false w = (ok none, w)
  cached_vms true w =
      let (cached, c) = Ttl.get "vms" w.clock w.rest.vm_cache in
      (ok cached, record w { rest = record w.rest { vm_cache = c } })

  -- the summaries, and their storing
  unfoldable pub store_vms : List VirtualMachine → Service (List VmSummary)
  store_vms raw w =
      let items = map build_vm_summary raw in
      (
        ok items,
        record w {
          rest = record w.rest { vm_cache = Ttl.set "vms" items w.clock w.rest.vm_cache };
        },
      )

  unfoldable pub fetch_vms : Service (List VmSummary)
  fetch_vms = Factory.list_vms vsphere >>= store_vms

  unfoldable pub list_vms : Bool → Service (List VmSummary)
  list_vms use_cache = do cached ← cached_vms use_cache; or_fetch cached fetch_vms

  unfoldable pub cached_datastores : Bool → Service (Option (List (DatastoreDetail Float)))
  cached_datastores false w = (ok none, w)
  cached_datastores true w =
      let (cached, c) = Ttl.get "datastores" w.clock w.rest.ds_cache in
      (ok cached, record w { rest = record w.rest { ds_cache = c } })

  -- the summaries, and their storing
  unfoldable pub store_datastores : List Datastore → Service (List (DatastoreDetail Float))
  store_datastores raw w =
      let items = map (get_datastore_detail to_gb none_gb) raw in
      (
        ok items,
        record w {
          rest = record w.rest { ds_cache = Ttl.set "datastores" items w.clock w.rest.ds_cache };
        },
      )

  unfoldable pub fetch_datastores : Service (List (DatastoreDetail Float))
  fetch_datastores = Factory.list_datastores vsphere >>= store_datastores

  unfoldable pub list_datastores : Bool → Service (List (DatastoreDetail Float))
  list_datastores use_cache = do
    cached ← cached_datastores use_cache
    or_fetch cached fetch_datastores

  unfoldable pub cached_networks : Bool → Service (Option (List NetworkDetail))
  cached_networks false w = (ok none, w)
  cached_networks true w =
      let (cached, c) = Ttl.get "networks" w.clock w.rest.net_cache in
      (ok cached, record w { rest = record w.rest { net_cache = c } })

  -- the summaries, and their storing
  unfoldable pub store_networks : List Network → Service (List NetworkDetail)
  store_networks raw w =
      let items = map get_network_detail raw in
      (
        ok items,
        record w {
          rest = record w.rest { net_cache = Ttl.set "networks" items w.clock w.rest.net_cache };
        },
      )

  unfoldable pub fetch_networks : Service (List NetworkDetail)
  fetch_networks = Factory.list_networks vsphere >>= store_networks

  unfoldable pub list_networks : Bool → Service (List NetworkDetail)
  list_networks use_cache = do cached ← cached_networks use_cache; or_fetch cached fetch_networks

  unfoldable pub get_vm : String → Service (Option VmSummary)
  get_vm vm_id = do items ← list_vms true; pure (vm_of vm_id items)

  -- _upsert_snapshot: the write is scheduled. Reading the attribute `id` raises where it is absent.
  unfoldable pub upsert_snapshot :
      String → Option String → String → RawData Float → Service (Unit {0})
  upsert_snapshot resource_type none name raw = throw (other_error "AttributeError")
  upsert_snapshot resource_type (some external_id) name raw = modify (λ w. record w {
    rest = record w.rest {
      scheduled =
          w.rest.scheduled
          ++ record {
            resource_type = resource_type;
            external_id = external_id;
            resource_name = name;
            raw_data = raw;
          }
            ∷ [];
    };
  })

  -- the body of each loop of sync_inventory
  unfoldable pub sync_vm : VirtualMachine → Service (Unit {0})
  sync_vm vm =
      let detail = get_vm_detail vm in
      upsert_snapshot "vmware_vm" vm.id detail.name (machine_data detail)

  unfoldable pub sync_datastore : Datastore → Service (Unit {0})
  sync_datastore ds =
      let detail = get_datastore_detail to_gb none_gb ds in
      upsert_snapshot "vmware_datastore" ds.id detail.name (datastore_data detail)

  unfoldable pub sync_network : Network → Service (Unit {0})
  sync_network net =
      let detail = get_network_detail net in
      upsert_snapshot "vmware_network" net.id detail.name (network_data detail)

  -- the loops, each with what it counts
  unfoldable pub sync_each : {A : Type 0} → (A → Service (Unit {0})) → List A → Service ℕ
  sync_each body [] = pure 0
  sync_each body (x ∷ xs) = do body x; n ← sync_each body xs; pure (n + 1)

  unfoldable pub drop_caches : Service (Unit {0})
  drop_caches = modify (λ w. record w {
    rest = record w.rest {
      vm_cache = invalidate_all w.rest.vm_cache;
      ds_cache = invalidate_all w.rest.ds_cache;
      net_cache = invalidate_all w.rest.net_cache;
    };
  })

  unfoldable pub sync_inventory : Option String → Service InventorySyncResponse
  sync_inventory operation_task_id = do
    vms ← Factory.list_vms vsphere
    datastores ← Factory.list_datastores vsphere
    networks ← Factory.list_networks vsphere
    synced_vms ← sync_each sync_vm vms
    synced_ds ← sync_each sync_datastore datastores
    synced_net ← sync_each sync_network networks
    drop_caches
    pure (record {
      synced_vms = synced_vms;
      synced_datastores = synced_ds;
      synced_networks = synced_net;
      operation_task_id = operation_task_id;
    })
