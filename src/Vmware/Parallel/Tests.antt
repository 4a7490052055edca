-- ===== src/Vmware/Parallel/Tests.antt =====
-- A parallel assessment on concrete inputs.
use v_machine.Prelude.{
  ℕ, ◌≡◌, ◌==◌, String, true, none, some, List, [], ◌∷◌, str_eq, eq_iff, ◌⊎◌, arith, if◌then◌else◌,
}
use mathlib.Core.List.Perm
use v_machine.Openstack.Server.{timeout_error}
use v_machine.Vmware.Assessment.{Progress}
use v_machine.Prelude.Ends.{Ends}
use v_machine.Prelude.Exec.{ok, raise}
use v_machine.Vmware.Mapping.Resources.{Error, value_error, integration}
use v_machine.Vmware.Inventory.{VmSummary}
use v_machine.Vmware.Parallel.{Conditions, OperationCalls, Service, assess_parallel}
use v_machine.Vmware.Mapping.Samples.{thousandths}
use v_machine.Vmware.Parallel.Accounts.{Accounted, Unstarted, assess-Accounted}

abbrev vm : VmSummary
vm = record {
  id = "vm-1";
  name = "web";
  power_state = "poweredOn";
  guest_os = none;
  hardware = none;
  cluster_name = none;
  datastores = [];
  tags = [];
  annotation = none;
  firmware = none;
  secure_boot_enabled = none;
  vmware_tools_status = none;
  disk_controller_types = none;
}

-- The first attempt at "vm-1" raises and the second finds it; nothing else is in the inventory.
abbrev conditions : String → ℕ → Conditions
conditions vm_id attempt = record {
  inventory =
      if str_eq vm_id "vm-1"
      then (if attempt == 0 then raise (integration "no route") else ok (some vm))
      else ok none;
  openstack = record { flavors = ok []; networks = ok [] };
  interrupted = none;
}

conditions_by_id :
    (vm_id : String) (attempt : ℕ) (found : VmSummary)
    → (conditions vm_id attempt).inventory ≡ ok (some found)
    → found.id ≡ vm_id
conditions_by_id vm_id attempt found h = ground (arith, h, eq_iff vm_id "vm-1")

abbrev error_text : Error → String
error_text (integration message) = message
error_text value_error = "max() iterable argument is empty"

abbrev idle : Service ℕ
idle = record {
  engine = record { flavor_cache = none; network_cache = none; observed = [] };
  unsupported = [];
  timeouts = 0;
  retries = 0;
  depths = [];
  tasks = [];
  results = [];
  operation_states = [];
}

-- the update of the operation task at the end is refused
abbrev calls : OperationCalls
calls = record { creates = ok tt; starts = ok tt; ends = raise timeout_error }

assess-Accounted_example :
    let ids : List String = "vm-1" ∷ "b" ∷ [] in
    let out =
      assess_parallel thousandths conditions error_text "t" ids
        ("b" ∷ "vm-1" ∷ [])
        true
        300
        (some calls)
        idle in
    Ends
      (Accounted thousandths conditions error_text conditions_by_id "t" ids)
      (λ e s'.
        Unstarted thousandths conditions error_text conditions_by_id "t" ids s'
        ⊎ ((progress : Progress) × Accounted thousandths conditions error_text conditions_by_id "t"
              ids progress s'))
      out.0
      out.1
assess-Accounted_example =
    assess-Accounted thousandths conditions error_text conditions_by_id "t" ("vm-1" ∷ "b" ∷ [])
      ("b" ∷ "vm-1" ∷ []) true 300 (some calls) idle (Perm.swap "vm-1" "b" [])
