-- ===== src/Openstack/Lifecycle/Accounting.antt =====
-- What the lifecycle operations report.
use v_machine.Prelude.{◌≡◌, String, false, Option, none, some, [], ◌∷◌, ◌++◌, arith}
use mathlib.Core.List.{append_assoc}
use v_machine.Prelude.Exec.{Result, ok, raise}
use v_machine.Openstack.Server.{Exception, VmDetail}
use v_machine.Openstack.Connection.{Nova, World}
use v_machine.Openstack.Lifecycle.{
  error_type, count_operation, enqueue_audit, action_of, report_failure, respond, perform,
  lifecycle_operation, perform_delete, delete_vm,
}
use v_machine.Openstack.Lifecycle.States.{
  Operation, delete, operation_name, is_allowed, validate_state, refusal,
}
use v_machine.Openstack.Lifecycle.Polling.{get_vm, get_active_count}
use v_machine.Openstack.Lifecycle.Quiet.{
  perform-IsQuiet, perform_delete-IsQuiet, get_active_count-IsQuiet,
}

-- The label `status` of a result, and the error type that its audit entry names.
abbrev pub status_of : {A : Type 0} → Result Exception A → String
status_of (ok a) = "success"
status_of (raise e) = "failed"

abbrev pub error_of : {A : Type 0} → Result Exception A → Option String
error_of (ok a) = none
error_of (raise e) = some (error_type e)

module _ (nova : Nova) (operation : Operation) (server_id : String) (w : World) where
  -- Starting, stopping or rebooting counts one operation and enqueues one audit entry, both with
  -- the status of the result that the caller gets, whatever Nova answers.
  pub lifecycle_accounted :
      let out = lifecycle_operation nova operation server_id w in
      (out.1.operations ≡ w.operations ++ (operation_name operation, status_of out.0) ∷ [])
      × (out.1.audit
          ≡ w.audit
            ++ record {
              action = action_of operation;
              resource_id = some server_id;
              status = status_of out.0;
              error_type = error_of out.0;
            }
              ∷ [])
  unfolding lifecycle_operation report_failure count_operation enqueue_audit respond
  lifecycle_accounted =
      let q = (perform-IsQuiet nova operation server_id).at w in
      ground (arith, q.operations, q.audit)

  -- A VM whose state does not allow the operation is refused with the conflict error, Nova is
  -- called for the state and for nothing else, and the count of active VMs stays.
  pub lifecycle_refused :
      (detail : VmDetail)
      → (get_vm nova server_id w).0 ≡ ok detail
      → is_allowed detail.status operation ≡ false
      → let out = lifecycle_operation nova operation server_id w in
        (out.0 ≡ raise (refusal detail.status operation))
        × (out.1.calls ≡ (get_vm nova server_id w).1.calls)
        × (out.1.active_count ≡ (get_vm nova server_id w).1.active_count)
  unfolding lifecycle_operation perform validate_state report_failure count_operation enqueue_audit
      respond
  lifecycle_refused detail h n = ground (arith, h, n)

module _ (nova : Nova) (server_id : String) (w : World) where
  -- A VM whose state does not allow deletion is refused, and no deletion is asked of Nova.
  pub delete_refused :
      (detail : VmDetail)
      → (get_vm nova server_id w).0 ≡ ok detail
      → is_allowed detail.status delete ≡ false
      → let out = delete_vm nova server_id w in
        (out.0 ≡ raise (refusal detail.status delete))
        × (out.1.calls ≡ (get_vm nova server_id w).1.calls)
  unfolding delete_vm perform_delete validate_state report_failure count_operation enqueue_audit
      respond
  delete_refused detail h n = ground (arith, h, n)

  -- the world in which the deletion has been counted and the active VMs are about to be listed
  abbrev pub counted : World
  counted = (count_operation delete "success" (perform_delete nova server_id w).1).1

  -- Where Nova has deleted the VM and the listing of the active VMs then raises, the caller gets that
  -- exception, and the one deletion is counted twice, as a success and as a failure.
  pub delete_counted_twice :
      (e : Exception)
      → (perform_delete nova server_id w).0 ≡ ok tt
      → (get_active_count nova counted).0 ≡ raise e
      → let out = delete_vm nova server_id w in
        (out.0 ≡ raise e)
        × (out.1.operations ≡ w.operations ++ (("delete", "success") ∷ ("delete", "failed") ∷ []))
  unfolding delete_vm report_failure count_operation enqueue_audit respond
  delete_counted_twice e h raised =
      let p = (perform_delete-IsQuiet nova server_id).at w in
      let q = (get_active_count-IsQuiet nova).at counted in
      ground (
        arith,
        h,
        raised,
        p.operations,
        q.operations,
        append_assoc w.operations (("delete", "success") ∷ []) (("delete", "failed") ∷ []),
      )
