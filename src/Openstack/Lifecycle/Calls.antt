-- ===== src/Openstack/Lifecycle/Calls.antt =====
-- app/services/openstack/vm_provisioning_engine.py: when a call reaches Nova.
use v_machine.Prelude.{ℕ, ◌≡◌, true, [], ◌∷◌, ◌++◌, arith}
use v_machine.Prelude.Exec.{ok}
use v_machine.Openstack.Connection.{
  Call, Value, Nova, World, connect, find_method, call_with_timeout, nova_call, method_name,
}

module _ (nova : Nova) where
  connect_connected : (w : World) → (connect nova w).0 ≡ ok tt → (connect nova w).1.connected ≡ true
  unfolding connect
  connect_connected w h = ground arith

  connect_again : (w : World) → w.connected ≡ true → connect nova w ≡ (ok tt, w)
  unfolding connect
  connect_again w h = rw h

  find_method_ok :
      (call : Call) (w : World)
      → (find_method nova call w).0 ≡ ok tt
      → (nova.has_compute ≡ true) × ((find_method nova call w).1 ≡ w)
  unfolding find_method
  find_method_ok call w h = ground arith

  method_found :
      (call : Call) (w : World)
      → nova.has_compute ≡ true
      → nova.has_method (method_name call) ≡ true
      → find_method nova call w ≡ (ok tt, w)
  unfolding find_method
  method_found call w s m = rw (s, m)

  logged :
      (call : Call) (timeout : ℕ) (w : World)
      → ((call_with_timeout nova call timeout w).1.calls ≡ w.calls ++ call ∷ [])
        × ((call_with_timeout nova call timeout w).1.connected ≡ w.connected)
  unfolding call_with_timeout
  logged call timeout w = ground arith

  -- A call that returned has a connection and a compute service behind it.
  pub called_ok :
      (call : Call) (timeout : ℕ) (w : World) (v : Value)
      → (nova_call nova call timeout w).0 ≡ ok v
      → ((nova_call nova call timeout w).1.connected ≡ true) × (nova.has_compute ≡ true)
  unfolding nova_call
  called_ok call timeout w v h =
      let w1 = (connect nova w).1 in
      ground (
        arith,
        connect_connected w,
        find_method_ok call w1,
        logged call timeout (find_method nova call w1).1,
      )

  -- With a connection and the method at hand, the call reaches Nova.
  pub call_reaches :
      (call : Call) (timeout : ℕ) (w : World)
      → w.connected ≡ true
      → nova.has_compute ≡ true
      → nova.has_method (method_name call) ≡ true
      → (nova_call nova call timeout w).1.calls ≡ w.calls ++ call ∷ []
  unfolding nova_call
  call_reaches call timeout w c s m =
      ground (arith, connect_again w c, method_found call w s m, logged call timeout w)
