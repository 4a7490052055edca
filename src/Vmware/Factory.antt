-- ===== src/Vmware/Factory.antt =====
-- app/clients/vmware/connection.py, VMwareClientFactory: the connection, the listings of objects with
-- their metrics. `Vsphere` is what vCenter answers: each listing is a view, and the answer may depend on
-- the number of views that were opened before.
use v_machine.Prelude.{
  ℕ, ◌+◌, String, Bool, true, false, Option, none, some, List, [], ◌∷◌, ◌++◌, str_eq, if◌then◌else◌,
}
use v_machine.Prelude.Exec.{Result, ok, raise, Exec, pure, throw, modify, ◌>>=◌, ◌>>◌}
use v_machine.Prelude.Text.{f_string}
use v_machine.Vmware.Pool.{Vcenter, ConnectionPool, acquire, disconnect_all}
use v_machine.Vmware.Pool as Pool
use v_machine.Vmware.Vim.{VirtualMachine, Datastore, Network}

-- VMwareClientException with its message; what the pool raises; another exception by its class name
pub data Failure : Type 0 where
  client_exception : String → Failure
  pool_error : Pool.Error → Failure
  other_error : String → Failure

pub record Vsphere : Type 0 where
  pub vcenter : Vcenter
  pub virtual_machines : ℕ → Result String (List VirtualMachine)
  pub datastores : ℕ → Result String (List Datastore)
  pub networks : ℕ → Result String (List Network)

-- The world of the inventory: the clock in seconds, the pool, the number of views opened, and the metric
-- by its labels; `rest` is what the service keeps besides.
pub record VcenterWorld (R : Type 0) : Type 0 where
  pub clock : ℕ
  pub pool : ConnectionPool
  pub views : ℕ
  pub durations : List (String × String)
  pub rest : R

abbrev pub Discovery : Type 0 → Type 0 → Type 0
Discovery R A = Exec Failure (VcenterWorld R) A

-- observe(…) with these labels
abbrev pub observed : {R : Type 0} → String → String → VcenterWorld R → VcenterWorld R
observed operation status w = record w { durations = w.durations ++ (operation, status) ∷ [] }

unfoldable pub status_of : {A : Type 0} → Result Failure A → String
status_of (ok a) = "success"
status_of (raise e) = "error"

unfoldable pub is_ok : {A : Type 0} → Result Failure A → Bool
is_ok (ok a) = true
is_ok (raise e) = false

-- the loop over the view
unfoldable pub first_named : String → List VirtualMachine → Option VirtualMachine
first_named vm_name [] = none
first_named vm_name (vm ∷ vms) =
    let rest = first_named vm_name vms in
    elim vm.name [ none ↦ rest | some n ↦ if str_eq n vm_name then some vm else rest ]

module _ {R : Type 0} where
  -- what an acquired connection is to the caller
  unfoldable pub connected :
      {A : Type 0}
      → Result Pool.Error A
      → VcenterWorld R
      → Result Failure (Unit {0}) × VcenterWorld R
  connected (ok pc) w = (ok tt, w)
  connected (raise e) w = (raise (pool_error e), w)

  unfoldable pub instrument : {A : Type 0} → String → Discovery R A → Discovery R A
  instrument operation fn w = let (r, w') = fn w in (r, observed operation (status_of r) w')

  -- the objects of a view
  unfoldable pub opened :
      {A : Type 0} → Result String A → VcenterWorld R → Result Failure A × VcenterWorld R
  opened (ok a) w = (ok a, record w { views = w.views + 1 })
  opened (raise e) w = (raise (other_error e), record w { views = w.views + 1 })

  module _ (vsphere : Vsphere) where
    unfoldable pub connect : Discovery R (Unit {0})
    connect w =
        if vsphere.vcenter.ready
        then (let (acquired, p) = acquire vsphere.vcenter w.clock w.pool in
            connected acquired (record w { pool = p }))
        else (raise (client_exception "VMware settings are incomplete."), w)

    unfoldable pub get_all_objects :
        {A : Type 0} → (ℕ → Result String (List A)) → Discovery R (List A)
    get_all_objects view = do connect; λ w. opened (view w.views) w

    unfoldable pub list_vms : Discovery R (List VirtualMachine)
    list_vms = instrument "list_vms" (get_all_objects vsphere.virtual_machines)

    unfoldable pub list_datastores : Discovery R (List Datastore)
    list_datastores = instrument "list_datastores" (get_all_objects vsphere.datastores)

    unfoldable pub list_networks : Discovery R (List Network)
    list_networks = instrument "list_networks" (get_all_objects vsphere.networks)

    unfoldable pub found_or_raise : String → Option VirtualMachine → Discovery R VirtualMachine
    found_or_raise vm_name none =
        throw (client_exception (f_string ("VM '" ∷ vm_name ∷ "' not found in VMware" ∷ [])))
    found_or_raise vm_name (some vm) = pure vm

    -- the two handlers; a VM that is found is not observed
    unfoldable pub observe_failure :
        {A : Type 0} → Result Failure A → VcenterWorld R → VcenterWorld R
    observe_failure (ok a) w = w
    observe_failure (raise (client_exception message)) w = observed "get_vm_by_name" "success" w
    observe_failure (raise (pool_error e)) w = observed "get_vm_by_name" "error" w
    observe_failure (raise (other_error e)) w = observed "get_vm_by_name" "error" w

    unfoldable pub get_vm_by_name : String → Discovery R VirtualMachine
    get_vm_by_name vm_name w =
        let (r, w') =
          (get_all_objects vsphere.virtual_machines >>= λ vms.
          found_or_raise vm_name (first_named vm_name vms))
            w in
        (r, observe_failure r w')

    unfoldable pub validate_credentials : VcenterWorld R → Bool × VcenterWorld R
    validate_credentials w =
        let (r, w') = connect w in (is_ok r, observed "validate_credentials" (status_of r) w')

  unfoldable pub disconnect : Discovery R (Unit {0})
  disconnect = modify (λ w. record w { pool = disconnect_all w.pool })
