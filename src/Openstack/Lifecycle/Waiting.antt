-- ===== src/Openstack/Lifecycle/Waiting.antt =====
-- app/services/openstack/vm_provisioning_engine.py: what the return of a polling loop means.
use mathlib.Core.Path.{subst}
use v_machine.Prelude.{
  ℕ, zero, suc, ◌+◌, ◌≡◌, refl, String, Bool, true, Option, none, some, ltb, arith, Bool-cases, inl,
  inr, eq_iff,
}
use v_machine.Prelude.Exec.{Result, ok, raise, ◌>>=◌}
use v_machine.Openstack.Server.{Exception, VmDetail}
use v_machine.Openstack.Connection.{Nova, World, Action}
use v_machine.Openstack.Lifecycle.Polling.{
  rounds, sleep, lift, go_on, check_status, poll, wait_until, wait_for_active, is_active,
  provisioning_failed,
}

module _ (nova : Nova) (server_id : String) (reached : String → Bool)
    (failure : String → Exception) where
  abbrev wait : ℕ → ℕ → Action VmDetail
  wait = wait_until nova server_id reached failure

  abbrev round : Action (Option VmDetail)
  round = poll nova server_id reached failure

  wait_in_time :
      (n deadline : ℕ) (w : World)
      → ltb w.clock deadline ≡ true
      → wait (suc n) deadline w ≡ (round >>= λ o. go_on o (wait n deadline)) w
  unfolding wait_until
  wait_in_time n deadline w time = rw (time, wait_until) refl

  go_on_reached :
      (n deadline : ℕ) (r : Result Exception (Option VmDetail)) (w : World) (d : VmDetail)
      → ((d' : VmDetail) → r ≡ ok (some d') → reached d'.status ≡ true)
      → ((w' : World) → (wait n deadline w').0 ≡ ok d → reached d.status ≡ true)
      → ((lift r >>= λ o. go_on o (wait n deadline)) w).0 ≡ ok d
      → reached d.status ≡ true
  unfolding go_on sleep
  go_on_reached n deadline (ok (some d')) w d found rest h =
      let e : d' ≡ d = cc in rw (← e) (found d' refl)
  go_on_reached n deadline (ok none) w d found rest h = rest _ h
  go_on_reached n deadline (raise e) w d found rest h = absurd cc

  poll_reached :
      (w : World) (d : VmDetail)
      → (poll nova server_id reached failure w).0 ≡ ok (some d)
      → reached d.status ≡ true
  unfolding poll check_status
  poll_reached w d h = ground arith

  wait_reached :
      (n deadline : ℕ) (w : World) (d : VmDetail)
      → (wait n deadline w).0 ≡ ok d
      → reached d.status ≡ true
  unfolding wait_until
  wait_reached zero deadline w d h = absurd cc
  wait_reached (suc n) deadline w d h = elim (Bool-cases (ltb w.clock deadline)) [
    | inl time ↦
        go_on_reached n deadline (round w).0 (round w).1 d (λ d' e. poll_reached w d' e)
          (λ w' e. wait_reached n deadline w' d e)
          (subst (λ out. out.0 ≡ ok d) (wait_in_time n deadline w time) h)
    | inr late ↦ absurd (ground arith)
  ]

pub wait_for_active_active :
    (nova : Nova) (server_id : String) (timeout : ℕ) (w : World) (d : VmDetail)
    → (wait_for_active nova server_id timeout w).0 ≡ ok d
    → d.status ≡ "ACTIVE"
unfolding wait_for_active
wait_for_active_active nova server_id timeout w d h = (eq_iff d.status "ACTIVE").0 (
    wait_reached nova server_id is_active provisioning_failed (rounds timeout) (w.clock + timeout) w
      d h)
