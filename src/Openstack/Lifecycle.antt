-- ===== src/Openstack/Lifecycle.antt =====
-- app/services/openstack/vm_provisioning_engine.py, VMProvisioningEngine: create, start, stop,
-- reboot and delete a VM, with polling, state validation, metrics and audit. Logging is left out;
-- elapsed times are in milliseconds and not rounded.
pub mod States
pub mod Polling
pub mod Quiet
pub mod Accounting
pub mod Waiting
pub mod Loops
pub mod Calls
pub mod Creation
mod Tests
use v_machine.Prelude.{
  ℕ, ◌+◌, ◌-◌, String, Option, none, some, List, [], ◌∷◌, ◌++◌, if◌then◌else◌, str_eq,
}
use v_machine.Prelude.Exec.{Result, ok, raise, Exec, pure, throw, gets, catch, modify, ◌>>=◌, ◌>>◌}
use v_machine.Prelude.Text.{f_string}
use v_machine.Openstack.Server.{
  Exception, app, timeout_error, validation_error, sdk_error, VmDetail, get_id,
}
use v_machine.Openstack.Connection.{
  VmCreateRequest, create_server, delete_server, Value, nothing, one, many, Nova, AuditEntry, World,
  Action, integration_error, nova_call,
}
use States.{
  Operation, start, stop, reboot, delete, operation_name, validate_state, operation_to_sdk,
}
use Polling.{
  lifecycle_timeout, lift, get_vm, get_active_count, wait_for_active, wait_for_stopped,
  wait_for_deleted,
}

abbrev pub provisioning_timeout : ℕ
provisioning_timeout = 300000

abbrev pub deletion_timeout : ℕ
deletion_timeout = 60000

abbrev pub cleanup_timeout : ℕ
cleanup_timeout = 30000

-- VMOperationResponse
pub record OperationResponse : Type 0 where
  pub server_id : String
  pub operation : String
  pub status : String
  pub elapsed : ℕ

-- type(exc).__name__
unfoldable pub error_type : Exception → String
error_type (app message status code) =
    if str_eq code "openstack_error" then "OpenStackIntegrationException" else "AppException"
error_type timeout_error = "TimeoutError"
error_type validation_error = "ValidationError"
error_type (sdk_error name) = name

-- vmw_vm_active_count.inc()
unfoldable pub count_active : Action (Unit {0})
count_active = modify (λ w. record w { active_count = w.active_count + 1 })

-- vmw_vm_lifecycle_operations.labels(operation=…, status=…).inc()
unfoldable pub count_operation : Operation → String → Action (Unit {0})
count_operation operation status =
    modify (λ w. record w { operations = w.operations ++ (operation_name operation, status) ∷ [] })

unfoldable pub enqueue_audit : String → Option String → String → Option String → Action (Unit {0})
enqueue_audit action resource_id status error = modify (λ w. record w {
  audit =
      w.audit
      ++ record { action = action; resource_id = resource_id; status = status; error_type = error }
        ∷ [];
})

abbrev pub action_of : Operation → String
action_of operation = f_string ("vm." ∷ operation_name operation ∷ [])

-- the `except` clause of the lifecycle operations
unfoldable pub report_failure : {A : Type 0} → Operation → String → Exception → Action A
report_failure operation server_id e = do
  count_operation operation "failed"
  enqueue_audit (action_of operation) (some server_id) "failed" (some (error_type e))
  throw e

unfoldable pub respond : Operation → String → ℕ → Action OperationResponse
respond operation server_id t0 w = (
  ok (record {
    server_id = server_id;
    operation = operation_name operation;
    status = "success";
    elapsed = w.clock - t0;
  }),
  w,
)

-- `_get_id(server)`, of what create_server returned
unfoldable pub value_id : Value → Result Exception String
value_id (one server) = get_id server
value_id _ = raise (integration_error "Server object has no id attribute")

module _ (nova : Nova) where
  -- what follows the call that starts, stops or reboots
  unfoldable pub settle : Operation → String → Action (Unit {0})
  settle start server_id = do wait_for_active nova server_id lifecycle_timeout; count_active
  settle stop server_id = do
    wait_for_stopped nova server_id lifecycle_timeout
    get_active_count nova
    pure tt
  settle reboot server_id = do wait_for_active nova server_id lifecycle_timeout; pure tt
  settle delete server_id = pure tt

  unfoldable pub perform : Operation → String → Action (Unit {0})
  perform operation server_id = do
    detail ← get_vm nova server_id
    lift (validate_state detail.status operation)
    nova_call nova (operation_to_sdk operation server_id) lifecycle_timeout
    settle operation server_id

  -- `_lifecycle_operation`
  unfoldable pub lifecycle_operation : Operation → String → Action OperationResponse
  lifecycle_operation operation server_id w =
      catch
        (do
          perform operation server_id
          count_operation operation "success"
          enqueue_audit (action_of operation) (some server_id) "success" none
          respond operation server_id w.clock)
        (report_failure operation server_id) w

  pub start_vm : String → Action OperationResponse
  start_vm server_id = lifecycle_operation start server_id

  pub stop_vm : String → Action OperationResponse
  stop_vm server_id = lifecycle_operation stop server_id

  pub reboot_vm : String → Action OperationResponse
  reboot_vm server_id = lifecycle_operation reboot server_id

  -- `try: await self._wait_for_deleted(…) except Exception: pass`
  unfoldable pub await_deletion : String → Action (Unit {0})
  await_deletion server_id = catch (wait_for_deleted nova server_id deletion_timeout) (λ e. pure tt)

  unfoldable pub perform_delete : String → Action (Unit {0})
  perform_delete server_id = do
    detail ← get_vm nova server_id
    lift (validate_state detail.status delete)
    nova_call nova (delete_server server_id) lifecycle_timeout
    await_deletion server_id

  unfoldable pub delete_vm : String → Action OperationResponse
  delete_vm server_id w =
      catch
        (do
          perform_delete server_id
          count_operation delete "success"
          get_active_count nova
          enqueue_audit (action_of delete) (some server_id) "success" none
          respond delete server_id w.clock)
        (report_failure delete server_id) w

  -- `_cleanup_failed_server`
  unfoldable pub cleanup_failed_server : String → Action (Unit {0})
  cleanup_failed_server server_id =
      catch (nova_call nova (delete_server server_id) cleanup_timeout >> pure tt) (λ e. pure tt)

  -- deletes a server that was created, and names it for the audit entry
  unfoldable pub discard : Value → Action (Option String)
  discard nothing = pure none
  discard value = do sid ← lift (value_id value); cleanup_failed_server sid; pure (some sid)

  -- the `except` clause of create_vm; `server` is None before the call has returned
  unfoldable pub create_failed : Value → Exception → Action VmDetail
  create_failed server e = do
    modify (λ w. record w {
      create_durations = w.create_durations ++ "failed" ∷ [];
      create_failures = w.create_failures ++ error_type e ∷ [];
    })
    resource_id ← discard server
    enqueue_audit "vm.create" resource_id "failed" (some (error_type e))
    throw e

  -- from the return of create_server on
  unfoldable pub finish_create : Value → Action VmDetail
  finish_create server = do
    server_id ← lift (value_id server)
    detail ← wait_for_active nova server_id provisioning_timeout
    modify (λ w. record w { create_durations = w.create_durations ++ "success" ∷ [] })
    count_active
    enqueue_audit "vm.create" (some server_id) "success" none
    pure detail

  unfoldable pub create_vm : VmCreateRequest → Action VmDetail
  create_vm request w =
      let (created, w') = nova_call nova (create_server request) provisioning_timeout w in
      elim created [
        | raise e ↦ create_failed nothing e w'
        | ok server ↦ catch (finish_create server) (create_failed server) w'
      ]
