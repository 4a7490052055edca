-- ===== src/Openstack/Lifecycle/Loops.antt =====
-- app/services/openstack/vm_provisioning_engine.py: the polling loops, as steps that the answers of Nova
-- decide.
use mathlib.Core.Path.{subst}
use v_machine.Prelude.{
  ℕ, zero, suc, ◌+◌, ◌*◌, ◌==◌, ◌≡◌, ◌≢◌, ◌≤◌, ◌<◌, ◌⊎◌, inl, inr, refl, sym, String, Bool, true,
  false, Option, none, some, [], ◌∷◌, ltb, arith, str_eq, eq_iff, Bool-cases, if◌then◌else◌,
}
use v_machine.Prelude.Exec.{Result, ok, raise, ◌>>=◌}
use v_machine.Prelude.Text.{f_string}
use v_machine.Openstack.Server.{
  Exception, app, timeout_error, validation_error, sdk_error, VmDetail,
}
use v_machine.Openstack.Connection.{Nova, World, Action}
use v_machine.Openstack.Lifecycle.Polling.{
  poll_interval, rounds, sleep, go_on, check_status, check_gone, poll, poll_gone, get_vm,
  wait_until, wait_until_gone, wait_for_active, wait_for_stopped, wait_for_deleted, is_active,
  is_stopped, provisioning_failed, stop_failed,
}
use v_machine.Openstack.Lifecycle.Quiet.{get_vm-IsQuiet}

not_found :
    (m m' c c' : String) (status : ℕ) → (status == 404) ≡ false → ¬ (app m status c ≡ app m' 404 c')
not_found m m' c c' status h q = let e : status ≡ 404 = cc q in ground (arith, h, e)

-- the world after a sleep of three seconds
abbrev pub slept : World → World
slept w = record w { clock = w.clock + 3000 }

module _ (nova : Nova) (server_id : String) (deadline : ℕ) where
  -- what the next read of the server comes to, before the deadline, and the world after it
  abbrev pub Reads : World → Result Exception VmDetail → Type 0
  Reads w r = (w.clock < deadline) × ((get_vm nova server_id w).0 ≡ r)

  abbrev pub after : World → World
  after w = (get_vm nova server_id w).1

  -- A loop for the states in `Goal`, with the exception for a server in ERROR or UNKNOWN: from a world,
  -- what the caller gets, and the world that is left.
  pub data Waits (Goal : String → Type 0) (failure : String → Exception)
      : World → Result Exception VmDetail → World → Type 0 where
    late : (w : World) → deadline ≤ w.clock → Waits Goal failure w (raise timeout_error) w
    refused :
        (w : World) (e : Exception) → Reads w (raise e) → Waits Goal failure w (raise e) (after w)
    arrived :
        (w : World) (d : VmDetail)
        → Reads w (ok d)
        → Goal d.status
        → Waits Goal failure w (ok d) (after w)
    broken :
        (w : World) (d : VmDetail)
        → Reads w (ok d)
        → ¬ Goal d.status
        → (d.status ≡ "ERROR") ⊎ (d.status ≡ "UNKNOWN")
        → Waits Goal failure w (raise (failure d.status)) (after w)
    again :
        (w w' : World) (d : VmDetail) (r : Result Exception VmDetail)
        → Reads w (ok d)
        → ¬ Goal d.status
        → (d.status ≢ "ERROR") × (d.status ≢ "UNKNOWN")
        → Waits Goal failure (slept (after w)) r w'
        → Waits Goal failure w r w'

  -- the loop that waits until the server is gone: it returns at the deadline, too
  pub data Vanishes : World → Result Exception (Unit {0}) → World → Type 0 where
    late : (w : World) → deadline ≤ w.clock → Vanishes w (ok tt) w
    gone :
        (w : World) (message code : String)
        → Reads w (raise (app message 404 code))
        → Vanishes w (ok tt) (after w)
    refused :
        (w : World) (e : Exception)
        → Reads w (raise e)
        → ((message code : String) → e ≢ app message 404 code)
        → Vanishes w (raise e) (after w)
    again :
        (w w' : World) (d : VmDetail) (r : Result Exception (Unit {0}))
        → Reads w (ok d)
        → Vanishes (slept (after w)) r w'
        → Vanishes w r w'

  module _ (reached : String → Bool) (Goal : String → Type 0) (failure : String → Exception)
      (sound : (s : String) → reached s ≡ true → Goal s)
      (complete : (s : String) → reached s ≡ false → ¬ Goal s) where
    abbrev loop : ℕ → Action VmDetail
    loop n = wait_until nova server_id reached failure n deadline

    abbrev Waited : World → Result Exception VmDetail × World → Type 0
    Waited w out = Waits Goal failure w out.0 out.1

    in_time :
        (n : ℕ) (w : World)
        → ltb w.clock deadline ≡ true
        → loop (suc n) w ≡ (poll nova server_id reached failure >>= λ o. go_on o (loop n)) w
    unfolding wait_until
    in_time n w time = rw (time, wait_until) refl

    -- what follows a read that came to `r`
    abbrev follow : ℕ → World → Result Exception VmDetail → Result Exception VmDetail × World
    follow n w r =
        let p : Result Exception (Option VmDetail) × World = elim r [
          | ok d ↦ (check_status reached failure d, after w)
          | raise e ↦ (raise e, after w)
        ] in
        elim p.0 [ ok o ↦ go_on o (loop n) p.1 | raise e ↦ (raise e, p.1) ]

    followed :
        (n : ℕ) (w : World) (r : Result Exception VmDetail)
        → Reads w r
        → Waited (slept (after w)) (loop n (slept (after w)))
        → Waited w (follow n w r)
    unfolding check_status go_on sleep
    followed n w (raise e) h rest = refused w e h
    followed n w (ok d) h rest = elim (Bool-cases (reached d.status)) [
      | inl e ↦ rw (e, follow, check_status) (arrived w d h (sound d.status e))
      | inr e ↦ elim (Bool-cases (str_eq d.status "ERROR")) [
        | inl f ↦
            rw (e, f, follow, check_status)
              (broken w d h (complete d.status e) (inl ((eq_iff d.status "ERROR").0 f)))
        | inr f ↦ elim (Bool-cases (str_eq d.status "UNKNOWN")) [
          | inl g ↦
              rw (e, f, g, follow, check_status)
                (broken w d h (complete d.status e) (inr ((eq_iff d.status "UNKNOWN").0 g)))
          | inr g ↦
              rw (e, f, g, follow, check_status)
                (again w _ d _ h (complete d.status e)
                  (
                    (λ q. absurd (ground (arith, f, (eq_iff d.status "ERROR").1 q))),
                    (λ q. absurd (ground (arith, g, (eq_iff d.status "UNKNOWN").1 q))),
                  )
                  rest)
        ]
      ]
    ]

    waits : (n : ℕ) (w : World) → deadline ≤ w.clock + n * poll_interval → Waited w (loop n w)
    unfolding wait_until poll
    waits zero w h = late w (omega (arith, h))
    waits (suc n) w h = elim (Bool-cases (ltb w.clock deadline)) [
      | inr e ↦ rw (e, wait_until) (late w (ground (arith, e)))
      | inl e ↦
          let later = (get_vm-IsQuiet nova server_id).at w in
          subst (Waited w) (sym (in_time n w e)) (
            unfold poll in
            followed n w (get_vm nova server_id w).0 (ground (arith, e), refl)
              (waits n (slept (after w)) (omega (arith, h, later.later))))
    ]

  abbrev gone_loop : ℕ → Action (Unit {0})
  gone_loop n = wait_until_gone nova server_id n deadline

  abbrev Vanished : World → Result Exception (Unit {0}) × World → Type 0
  Vanished w out = Vanishes w out.0 out.1

  abbrev gone_round : ℕ → Action (Unit {0})
  gone_round n = poll_gone nova server_id >>= λ is_gone.
      go_on (if is_gone then some tt else none) (gone_loop n)

  gone_in_time :
      (n : ℕ) (w : World) → ltb w.clock deadline ≡ true → gone_loop (suc n) w ≡ gone_round n w
  unfolding wait_until_gone
  gone_in_time n w time = rw (time, wait_until_gone) refl

  abbrev gone_follow : ℕ → World → Result Exception VmDetail → Result Exception (Unit {0}) × World
  gone_follow n w r = elim (check_gone r) [
    | ok is_gone ↦ go_on (if is_gone then some tt else none) (gone_loop n) (after w)
    | raise e ↦ (raise e, after w)
  ]

  gone_followed :
      (n : ℕ) (w : World) (r : Result Exception VmDetail)
      → Reads w r
      → Vanished (slept (after w)) (gone_loop n (slept (after w)))
      → Vanished w (gone_follow n w r)
  unfolding check_gone go_on sleep
  gone_followed n w (ok d) h rest = again w _ d _ h rest
  gone_followed n w (raise (app message status code)) h rest = elim (Bool-cases (status == 404)) [
    | inl e ↦
        rw (e, gone_follow, check_gone)
          (gone w message code
            (subst (λ k. Reads w (raise (app message k code))) (ground (arith, e)) h))
    | inr e ↦
        rw (e, gone_follow, check_gone)
          (refused w (app message status code) h
            (λ m c q. absurd (not_found message m code c status e q)))
  ]
  gone_followed n w (raise timeout_error) h rest = refused w timeout_error h (λ m c q. cc q)
  gone_followed n w (raise validation_error) h rest = refused w validation_error h (λ m c q. cc q)
  gone_followed n w (raise (sdk_error name)) h rest = refused w (sdk_error name) h (λ m c q. cc q)

  vanishes :
      (n : ℕ) (w : World) → deadline ≤ w.clock + n * poll_interval → Vanished w (gone_loop n w)
  unfolding wait_until_gone poll_gone
  vanishes zero w h = late w (omega (arith, h))
  vanishes (suc n) w h = elim (Bool-cases (ltb w.clock deadline)) [
    | inr e ↦ rw (e, wait_until_gone) (late w (ground (arith, e)))
    | inl e ↦
        let later = (get_vm-IsQuiet nova server_id).at w in
        subst (Vanished w) (sym (gone_in_time n w e)) (
          gone_followed n w (get_vm nova server_id w).0 (ground (arith, e), refl)
            (vanishes n (slept (after w)) (omega (arith, h, later.later))))
  ]

-- the rounds that a loop starts with reach its deadline
enough : (timeout : ℕ) → timeout ≤ rounds timeout * poll_interval
unfolding rounds
enough timeout = omega arith

-- the exceptions of the loops for ACTIVE and for the stopped states
abbrev pub not_provisioned : String → Exception
not_provisioned status =
    app (f_string ("VM entered " ∷ status ∷ " state during provisioning" ∷ [])) 500
      "vm_provisioning_failed"

abbrev pub not_stopped : String → Exception
not_stopped status =
    app (f_string ("VM entered " ∷ status ∷ " state while stopping" ∷ [])) 500 "vm_stop_failed"

abbrev pub IsActive : String → Type 0
IsActive status = status ≡ "ACTIVE"

abbrev pub IsStopped : String → Type 0
IsStopped status = (status ≡ "SHUTOFF") ⊎ (status ≡ "STOPPED")

IsStopped-sound : (s : String) → is_stopped s ≡ true → IsStopped s
IsStopped-sound s h = elim (Bool-cases (str_eq s "SHUTOFF")) [
  | inl e ↦ inl ((eq_iff s "SHUTOFF").0 e)
  | inr e ↦ inr ((eq_iff s "STOPPED").0 (ground (arith, h, e)))
]

IsStopped-complete : (s : String) → is_stopped s ≡ false → ¬ IsStopped s
IsStopped-complete s h (inl e) = absurd (ground (arith, h, (eq_iff s "SHUTOFF").1 e))
IsStopped-complete s h (inr e) = absurd (ground (arith, h, (eq_iff s "STOPPED").1 e))

-- Each of the three loops comes to an end, in steps that the reads of the server decide: at the deadline it
-- raises the timeout, or returns where it waits for the server to be gone; a read that raises ends it
-- with the same exception, but a 404 ends the loop for a server that is to be gone; a server in ACTIVE, or in
-- SHUTOFF or STOPPED, is returned; one in ERROR or UNKNOWN raises what the loop raises for that; after any
-- other status the loop sleeps three seconds and goes on.
pub loops_observed :
    (nova : Nova) (server_id : String) (timeout : ℕ) (w : World)
    → let active = wait_for_active nova server_id timeout w in
      let stopped = wait_for_stopped nova server_id timeout w in
      let deleted = wait_for_deleted nova server_id timeout w in
      let deadline = w.clock + timeout in
      Waits nova server_id deadline IsActive not_provisioned w active.0 active.1
      × (Waits nova server_id deadline IsStopped not_stopped w stopped.0 stopped.1
          × Vanishes nova server_id deadline w deleted.0 deleted.1)
unfolding wait_for_active wait_for_stopped wait_for_deleted provisioning_failed stop_failed
loops_observed nova server_id timeout w =
    let deadline = w.clock + timeout in
    let reaches : deadline ≤ w.clock + rounds timeout * poll_interval =
      omega (arith, enough timeout) in
    (
      waits nova server_id deadline is_active IsActive provisioning_failed
          (λ s. (eq_iff s "ACTIVE").0)
          (λ s h q. absurd (ground (arith, h, (eq_iff s "ACTIVE").1 q))) (rounds timeout) w reaches,
      (
        waits nova server_id deadline is_stopped IsStopped stop_failed IsStopped-sound
            IsStopped-complete (rounds timeout) w reaches,
        vanishes nova server_id deadline (rounds timeout) w reaches,
      ),
    )
