-- ===== src/Openstack/Lifecycle/Quiet.antt =====
-- Actions that report nothing: they may call Nova and pass time, and leave the metrics of finished
-- operations and the audit queue as they are.
use v_machine.Prelude.{
  ℕ, zero, suc, ◌+◌, ◌≤◌, ◌≡◌, String, Bool, true, Option, none, some, ltb, arith, Bool-cases, inl,
  inr,
}
use v_machine.Prelude.Exec.{Result, ok, raise, pure, catch, ◌>>=◌}
use v_machine.Openstack.Server.{Exception}
use v_machine.Openstack.Connection.{
  Call, Nova, World, Action, connect, find_method, call_with_timeout, nova_call,
}
use v_machine.Openstack.Lifecycle.{count_active, settle, perform, await_deletion, perform_delete}
use v_machine.Openstack.Lifecycle.States.{Operation, validate_state, start, stop, reboot, delete}
use v_machine.Openstack.Lifecycle.Polling.{
  sleep, go_on, set_active, lift, get_vm, list_vms, get_active_count, poll, wait_until,
  wait_for_active, wait_for_stopped, poll_gone, wait_until_gone, wait_for_deleted, rounds,
}

pub record Quiet (w w' : World) : Type 0 where
  pub later : w.clock ≤ w'.clock
  pub connected : w.connected ≡ true → w'.connected ≡ true
  pub operations : w'.operations ≡ w.operations
  pub create_durations : w'.create_durations ≡ w.create_durations
  pub create_failures : w'.create_failures ≡ w.create_failures
  pub audit : w'.audit ≡ w.audit

pub Quiet-refl : (w : World) → Quiet w w
Quiet-refl w = ground arith

pub Quiet-trans : {u v w : World} → Quiet u v → Quiet v w → Quiet u w
Quiet-trans p q = ground arith

pub record IsQuiet {A : Type 0} (m : Action A) : Type 0 where
  pub at : (w : World) → Quiet w (m w).1

module _ {A : Type 0} where
  pub lift-IsQuiet : (r : Result Exception A) → IsQuiet (lift r)
  lift-IsQuiet r = record { at = Quiet-refl }

  pub pure-IsQuiet : (a : A) → IsQuiet (pure {E = Exception} {S = World} a)
  pure-IsQuiet a = record { at = Quiet-refl }

module _ {A B : Type 0} where
  bind_at :
      (r : Result Exception A) (f : A → Action B) (w : World)
      → ((a : A) → IsQuiet (f a))
      → Quiet w ((lift r >>= f) w).1
  bind_at (ok a) f w h = (h a).at w
  bind_at (raise e) f w h = Quiet-refl w

  pub bind-IsQuiet :
      (m : Action A) (f : A → Action B) → IsQuiet m → ((a : A) → IsQuiet (f a)) → IsQuiet (m >>= f)
  bind-IsQuiet m f hm hf = record { at = λ w. Quiet-trans (hm.at w) (bind_at (m w).0 f (m w).1 hf) }

catch_at :
    {A : Type 0} (r : Result Exception A) (h : Exception → Action A) (w : World)
    → ((e : Exception) → IsQuiet (h e))
    → Quiet w (catch (lift r) h w).1
catch_at (ok a) h w q = Quiet-refl w
catch_at (raise e) h w q = (q e).at w

pub catch-IsQuiet :
    {A : Type 0} (m : Action A) (h : Exception → Action A)
    → IsQuiet m
    → ((e : Exception) → IsQuiet (h e))
    → IsQuiet (catch m h)
catch-IsQuiet m h hm hh = record { at = λ w. Quiet-trans (hm.at w) (catch_at (m w).0 h (m w).1 hh) }

sleep-IsQuiet : IsQuiet sleep
unfolding sleep
sleep-IsQuiet = record { at = λ w. ground arith }

module _ (nova : Nova) where
  connect-IsQuiet : IsQuiet (connect nova)
  unfolding connect
  connect-IsQuiet = record { at = λ w. ground arith }

  find_method-IsQuiet : (call : Call) → IsQuiet (find_method nova call)
  unfolding find_method
  find_method-IsQuiet call = record { at = λ w. ground arith }

  call_with_timeout-IsQuiet :
      (call : Call) (timeout : ℕ) → IsQuiet (call_with_timeout nova call timeout)
  unfolding call_with_timeout
  call_with_timeout-IsQuiet call timeout = record { at = λ w. ground arith }

  pub nova_call-IsQuiet : (call : Call) (timeout : ℕ) → IsQuiet (nova_call nova call timeout)
  unfolding nova_call
  nova_call-IsQuiet call timeout = bind-IsQuiet _ _ connect-IsQuiet (λ _.
      bind-IsQuiet _ _ (find_method-IsQuiet call) (λ _. call_with_timeout-IsQuiet call timeout))

  pub get_vm-IsQuiet : (server_id : String) → IsQuiet (get_vm nova server_id)
  unfolding get_vm
  get_vm-IsQuiet server_id = bind-IsQuiet _ _ (nova_call-IsQuiet _ _) (λ v. lift-IsQuiet _)

  set_active-IsQuiet : (active : ℕ) → IsQuiet (set_active active)
  unfolding set_active
  set_active-IsQuiet active = record { at = λ w. ground arith }

  list_vms-IsQuiet : IsQuiet (list_vms nova)
  unfolding list_vms
  list_vms-IsQuiet = bind-IsQuiet _ _ (nova_call-IsQuiet _ _) (λ v. lift-IsQuiet _)

  pub get_active_count-IsQuiet : IsQuiet (get_active_count nova)
  unfolding get_active_count
  get_active_count-IsQuiet =
      bind-IsQuiet (list_vms nova) _ list_vms-IsQuiet (λ vms. set_active-IsQuiet _)

  go_on-IsQuiet :
      {A : Type 0} (r : Option A) (rest : Action A) → IsQuiet rest → IsQuiet (go_on r rest)
  unfolding go_on
  go_on-IsQuiet (some a) rest h = pure-IsQuiet a
  go_on-IsQuiet none rest h = bind-IsQuiet sleep _ sleep-IsQuiet (λ _. h)

  module _ (server_id : String) (reached : String → Bool) (failure : String → Exception) where
    pub poll-IsQuiet : IsQuiet (poll nova server_id reached failure)
    unfolding poll
    poll-IsQuiet =
        bind-IsQuiet (get_vm nova server_id) _ (get_vm-IsQuiet server_id) (λ d. lift-IsQuiet _)

    wait_until-IsQuiet :
        (n deadline : ℕ) → IsQuiet (wait_until nova server_id reached failure n deadline)
    unfolding wait_until
    wait_until-IsQuiet zero deadline = record { at = Quiet-refl }
    wait_until-IsQuiet (suc n) deadline = record {
      at = λ w. elim (Bool-cases (ltb w.clock deadline)) [
        | inl h ↦
            rw (h, wait_until)
              ((bind-IsQuiet (poll nova server_id reached failure) _ poll-IsQuiet
                  (λ r. go_on-IsQuiet r _ (wait_until-IsQuiet n deadline))).at
                w)
        | inr h ↦ rw (h, wait_until) (Quiet-refl w)
      ];
    }

  pub wait_for_active-IsQuiet :
      (server_id : String) (timeout : ℕ) → IsQuiet (wait_for_active nova server_id timeout)
  unfolding wait_for_active
  wait_for_active-IsQuiet server_id timeout = record {
    at = λ w. (wait_until-IsQuiet server_id _ _ (rounds timeout) (w.clock + timeout)).at w;
  }

  wait_for_stopped-IsQuiet :
      (server_id : String) (timeout : ℕ) → IsQuiet (wait_for_stopped nova server_id timeout)
  unfolding wait_for_stopped
  wait_for_stopped-IsQuiet server_id timeout = record {
    at = λ w. (wait_until-IsQuiet server_id _ _ (rounds timeout) (w.clock + timeout)).at w;
  }

  poll_gone-IsQuiet : (server_id : String) → IsQuiet (poll_gone nova server_id)
  unfolding poll_gone
  poll_gone-IsQuiet server_id = record { at = λ w. (get_vm-IsQuiet server_id).at w }

  wait_until_gone-IsQuiet :
      (server_id : String) (n deadline : ℕ) → IsQuiet (wait_until_gone nova server_id n deadline)
  unfolding wait_until_gone
  wait_until_gone-IsQuiet server_id zero deadline = record { at = Quiet-refl }
  wait_until_gone-IsQuiet server_id (suc n) deadline = record {
    at = λ w. elim (Bool-cases (ltb w.clock deadline)) [
      | inl h ↦
          rw (h, wait_until_gone)
            ((bind-IsQuiet (poll_gone nova server_id) _ (poll_gone-IsQuiet server_id)
                (λ r. go_on-IsQuiet _ _ (wait_until_gone-IsQuiet server_id n deadline))).at
              w)
      | inr h ↦ rw (h, wait_until_gone) (Quiet-refl w)
    ];
  }

  wait_for_deleted-IsQuiet :
      (server_id : String) (timeout : ℕ) → IsQuiet (wait_for_deleted nova server_id timeout)
  unfolding wait_for_deleted
  wait_for_deleted-IsQuiet server_id timeout = record {
    at = λ w. (wait_until_gone-IsQuiet server_id (rounds timeout) (w.clock + timeout)).at w;
  }

  count_active-IsQuiet : IsQuiet count_active
  unfolding count_active
  count_active-IsQuiet = record { at = λ w. ground arith }

  settle-IsQuiet :
      (operation : Operation) (server_id : String) → IsQuiet (settle nova operation server_id)
  unfolding settle
  settle-IsQuiet start id =
      bind-IsQuiet (wait_for_active nova id _) _ (wait_for_active-IsQuiet id _)
        (λ _. count_active-IsQuiet)
  settle-IsQuiet stop id =
      bind-IsQuiet (wait_for_stopped nova id _) _ (wait_for_stopped-IsQuiet id _) (λ _.
        bind-IsQuiet (get_active_count nova) _ get_active_count-IsQuiet (λ _. pure-IsQuiet tt))
  settle-IsQuiet reboot id =
      bind-IsQuiet (wait_for_active nova id _) _ (wait_for_active-IsQuiet id _)
        (λ _. pure-IsQuiet tt)
  settle-IsQuiet delete id = pure-IsQuiet tt

  pub perform-IsQuiet :
      (operation : Operation) (server_id : String) → IsQuiet (perform nova operation server_id)
  unfolding perform
  perform-IsQuiet operation id = bind-IsQuiet (get_vm nova id) _ (get_vm-IsQuiet id) (λ detail.
      bind-IsQuiet _ _ (lift-IsQuiet (validate_state detail.status operation)) (λ _.
        bind-IsQuiet (nova_call nova _ _) _ (nova_call-IsQuiet _ _)
          (λ _. settle-IsQuiet operation id)))

  await_deletion-IsQuiet : (server_id : String) → IsQuiet (await_deletion nova server_id)
  unfolding await_deletion
  await_deletion-IsQuiet id =
      catch-IsQuiet (wait_for_deleted nova id _) _ (wait_for_deleted-IsQuiet id _)
        (λ e. pure-IsQuiet tt)

  pub perform_delete-IsQuiet : (server_id : String) → IsQuiet (perform_delete nova server_id)
  unfolding perform_delete
  perform_delete-IsQuiet id = bind-IsQuiet (get_vm nova id) _ (get_vm-IsQuiet id) (λ detail.
      bind-IsQuiet _ _ (lift-IsQuiet (validate_state detail.status delete)) (λ _.
        bind-IsQuiet (nova_call nova _ _) _ (nova_call-IsQuiet _ _)
          (λ _. await_deletion-IsQuiet id)))
