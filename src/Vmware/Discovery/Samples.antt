-- ===== src/Vmware/Discovery/Samples.antt =====
-- A vCenter with one VM, for the tests of the inventory and of what calls it.
use v_machine.Prelude.{ℕ, Bool, true, false, none, some, [], ◌∷◌}
use v_machine.Prelude.Exec.{ok}
use v_machine.Cache.{TtlCache}
use v_machine.Vmware.Vim.{
  DeviceClass, virtual_disk, scsi_controller, para_virtual, Device, VirtualMachine,
}
use v_machine.Vmware.Factory.{Vsphere}
use v_machine.Vmware.Discovery.{World}

-- a disk, or a paravirtual controller
abbrev pub disk_class : DeviceClass → Bool
disk_class virtual_disk = true
disk_class _ = false

abbrev pub para_virtual_class : DeviceClass → Bool
para_virtual_class para_virtual = true
para_virtual_class scsi_controller = true
para_virtual_class _ = false

abbrev pub device : (DeviceClass → Bool) → Device
device is_instance = record {
  is_instance = is_instance;
  label = some "Hard disk 1";
  backing = none;
  capacity_in_kb = some 41943040;
  capacity_in_bytes = none;
  mac_address = none;
  sub_type = none;
}

abbrev pub machine : VirtualMachine
machine = record {
  id = some "vm-1";
  mo_id = some "vm-1";
  name = some "web";
  config = some (record {
    hardware = some (record {
      num_cpu = 2;
      num_cores_per_socket = 1;
      memory_mb = 4096;
      device = device disk_class ∷ device para_virtual_class ∷ [];
    });
    annotation = none;
    firmware = none;
    boot_options = none;
  });
  layout = ("[ds1] web/web.vmdk" ∷ []) ∷ [];
  datastore = some "ds1" ∷ [];
  guest = none;
  summary = none;
  parent = none;
}

abbrev pub vsphere : Vsphere
vsphere = record {
  vcenter = record { ready = true; connect_error = λ id. none; answers = λ id now. true };
  virtual_machines = λ views. ok (machine ∷ []);
  datastores = λ views. ok [];
  networks = λ views. ok [];
}

abbrev pub cache : {T : Type 0} → TtlCache T
cache = record {
  ttl = 300;
  name = "inventory";
  store = [];
  metrics = record { hits = []; misses = []; invalidations = [] };
}

abbrev pub to_gb : ℕ → ℕ
to_gb size = size

abbrev pub world : World to_gb 0 vsphere
world = record {
  clock = 1000;
  pool = record {
    max_pool_size = 5;
    session_ttl = 1800;
    health_check_interval = 60;
    pool = [];
    last_health_check = 1000;
    conn_created = 0;
    conn_reused = 0;
    conn_reconnected = 0;
    conn_failed = 0;
    next_id = 0;
    disconnected = [];
  };
  views = 0;
  durations = [];
  rest = record { vm_cache = cache; ds_cache = cache; net_cache = cache; scheduled = [] };
}
