-- ===== src/Openstack/Lifecycle/Creation.antt =====
-- Creating a VM: what success means, what is reported, and the clean-up after a failure.
use v_machine.Prelude.{◌≡◌, String, true, none, some, [], ◌∷◌, ◌++◌, arith, inl, inr}
use v_machine.Prelude.Exec.{Result, ok, raise, pure, Result-cases, ◌>>◌}
use v_machine.Openstack.Server.{Exception, Server, VmDetail, get_id}
use v_machine.Openstack.Connection.{
  VmCreateRequest, create_server, delete_server, Value, nothing, one, many, Nova, World, nova_call,
}
use v_machine.Openstack.Lifecycle.{
  provisioning_timeout, cleanup_timeout, error_type, count_active, enqueue_audit, value_id,
  cleanup_failed_server, discard, create_failed, finish_create, create_vm,
}
use v_machine.Openstack.Lifecycle.Quiet.{
  Quiet, IsQuiet, bind-IsQuiet, catch-IsQuiet, pure-IsQuiet, lift-IsQuiet, nova_call-IsQuiet,
  wait_for_active-IsQuiet,
}
use v_machine.Openstack.Lifecycle.Accounting.{status_of}
use v_machine.Openstack.Lifecycle.Waiting.{wait_for_active_active}
use v_machine.Openstack.Lifecycle.Calls.{called_ok, call_reaches}

module _ (nova : Nova) where
  finish_create_raise :
      (server : Value) (w : World) (e : Exception)
      → (finish_create nova server w).0 ≡ raise e
      → Quiet w (finish_create nova server w).1
  unfolding finish_create count_active enqueue_audit
  finish_create_raise server w e h = elim (Result-cases (value_id server)) [
    | inl (sid, q) ↦
        let quiet = (wait_for_active-IsQuiet nova sid provisioning_timeout).at w in
        ground (arith, q, quiet)
    | inr (x, q) ↦ ground (arith, q)
  ]

  finish_create_ok :
      (server : Value) (w : World) (d : VmDetail)
      → (finish_create nova server w).0 ≡ ok d
      → let w' = (finish_create nova server w).1 in
        (d.status ≡ "ACTIVE")
        × (w'.create_durations ≡ w.create_durations ++ "success" ∷ [])
        × (w'.create_failures ≡ w.create_failures)
  unfolding finish_create count_active enqueue_audit
  finish_create_ok server w d h = elim (Result-cases (value_id server)) [
    | inl (sid, q) ↦
        let quiet = (wait_for_active-IsQuiet nova sid provisioning_timeout).at w in
        ground (arith, q, quiet, wait_for_active_active nova sid provisioning_timeout w d)
    | inr (x, q) ↦ absurd (ground (arith, q))
  ]

  cleanup-IsQuiet : (sid : String) → IsQuiet (cleanup_failed_server nova sid)
  unfolding cleanup_failed_server
  cleanup-IsQuiet sid =
      catch-IsQuiet (nova_call nova (delete_server sid) cleanup_timeout >> pure tt) _
        (bind-IsQuiet (nova_call nova _ _) _ (nova_call-IsQuiet nova _ _) (λ v. pure-IsQuiet tt))
        (λ e. pure-IsQuiet tt)

  discard-IsQuiet : (server : Value) → IsQuiet (discard nova server)
  unfolding discard
  discard-IsQuiet nothing = pure-IsQuiet none
  discard-IsQuiet (one s) = bind-IsQuiet _ _ (lift-IsQuiet (value_id (one s))) (λ sid.
      bind-IsQuiet (cleanup_failed_server nova sid) _ (cleanup-IsQuiet sid)
        (λ u. pure-IsQuiet (some sid)))
  discard-IsQuiet (many ss) = bind-IsQuiet _ _ (lift-IsQuiet (value_id (many ss))) (λ sid.
      bind-IsQuiet (cleanup_failed_server nova sid) _ (cleanup-IsQuiet sid)
        (λ u. pure-IsQuiet (some sid)))

  -- what a failure reports, whether the clean-up raises or not
  create_failed_reports :
      (server : Value) (e : Exception) (w : World)
      → let out = create_failed nova server e w in
        ((x : Exception) × (out.0 ≡ raise x))
        × (out.1.create_durations ≡ w.create_durations ++ "failed" ∷ [])
        × (out.1.create_failures ≡ w.create_failures ++ error_type e ∷ [])
  unfolding create_failed enqueue_audit
  create_failed_reports server e w =
      let failed = record w {
        create_durations = w.create_durations ++ "failed" ∷ [];
        create_failures = w.create_failures ++ error_type e ∷ [];
      } in
      let q = (discard-IsQuiet server).at failed in
      elim (Result-cases (discard nova server failed).0) [
        | inl (sid, d) ↦ (
          (e, ground (arith, d)),
          ground (arith, d, q.create_durations),
          ground (arith, d, q.create_failures),
        )
        | inr (x, d) ↦ (
          (x, ground (arith, d)),
          ground (arith, d, q.create_durations),
          ground (arith, d, q.create_failures),
        )
      ]

  cleaned_up :
      (sid : String) (w : World)
      → w.connected ≡ true
      → nova.has_compute ≡ true
      → nova.has_method "delete_server" ≡ true
      → (cleanup_failed_server nova sid w).1.calls ≡ w.calls ++ delete_server sid ∷ []
  unfolding cleanup_failed_server
  cleaned_up sid w c s m =
      ground (arith, call_reaches nova (delete_server sid) cleanup_timeout w c s m)

  cleanup_ok : (sid : String) (w : World) → (cleanup_failed_server nova sid w).0 ≡ ok tt
  unfolding cleanup_failed_server
  cleanup_ok sid w = ground arith

  discarded :
      (server : Server) (sid : String) (w : World)
      → get_id server ≡ ok sid
      → discard nova (one server) w ≡ (ok (some sid), (cleanup_failed_server nova sid w).1)
  unfolding discard value_id
  discarded server sid w h = ground (arith, h, cleanup_ok sid w)

  create_failed_cleans :
      (server : Server) (sid : String) (e : Exception) (w : World)
      → get_id server ≡ ok sid
      → w.connected ≡ true
      → nova.has_compute ≡ true
      → nova.has_method "delete_server" ≡ true
      → let out = create_failed nova (one server) e w in
        (out.0 ≡ raise e) × (out.1.calls ≡ w.calls ++ delete_server sid ∷ [])
  unfolding create_failed enqueue_audit
  create_failed_cleans server sid e w h c s m =
      let failed = record w {
        create_durations = w.create_durations ++ "failed" ∷ [];
        create_failures = w.create_failures ++ error_type e ∷ [];
      } in
      ground (arith, discarded server sid failed h, cleaned_up sid failed c s m)

  module _ (request : VmCreateRequest) (w : World) where
    abbrev pub created : Result Exception Value × World
    created = nova_call nova (create_server request) provisioning_timeout w

    -- Creating a VM observes one duration, labelled with the status of the result that the caller
    -- gets, whatever Nova answers.
    pub create_vm_reports :
        let out = create_vm nova request w in
        out.1.create_durations ≡ w.create_durations ++ status_of out.0 ∷ []
    unfolding create_vm
    create_vm_reports =
        let q = (nova_call-IsQuiet nova (create_server request) provisioning_timeout).at w in
        elim (Result-cases created.0) [
          | inr (e, made) ↦ ground (arith, made, q, create_failed_reports nothing e created.1)
          | inl (server, made) ↦ elim (Result-cases (finish_create nova server created.1).0) [
            | inl (d', f) ↦ ground (arith, made, q, f, finish_create_ok server created.1 d' f)
            | inr (e, f) ↦
                let r = finish_create_raise server created.1 e f in
                ground (
                  arith,
                  made,
                  q,
                  f,
                  r,
                  create_failed_reports server e (finish_create nova server created.1).1,
                )
          ]
        ]

    -- A VM that creation returns was seen in the state ACTIVE, and no failure is counted.
    pub create_vm_active :
        (d : VmDetail)
        → (create_vm nova request w).0 ≡ ok d
        → (d.status ≡ "ACTIVE") × ((create_vm nova request w).1.create_failures ≡ w.create_failures)
    unfolding create_vm
    create_vm_active d h =
        let q = (nova_call-IsQuiet nova (create_server request) provisioning_timeout).at w in
        elim (Result-cases created.0) [
          | inr (e, made) ↦ ground (arith, made, q, create_failed_reports nothing e created.1)
          | inl (server, made) ↦ elim (Result-cases (finish_create nova server created.1).0) [
            | inl (d', f) ↦ ground (arith, made, q, f, finish_create_ok server created.1 d' f)
            | inr (e, f) ↦
                let r = finish_create_raise server created.1 e f in
                ground (
                  arith,
                  made,
                  q,
                  f,
                  r,
                  create_failed_reports server e (finish_create nova server created.1).1,
                )
          ]
        ]

    -- Where Nova has the method delete_server and has created a server with an id, and a later step
    -- raises, the caller gets that exception, and the last call that Nova received is the deletion
    -- of that server.
    pub create_vm_cleans :
        (server : Server) (sid : String) (e : Exception)
        → created.0 ≡ ok (one server)
        → get_id server ≡ ok sid
        → (finish_create nova (one server) created.1).0 ≡ raise e
        → nova.has_method "delete_server" ≡ true
        → let out = create_vm nova request w in
          (out.0 ≡ raise e)
          × (out.1.calls
              ≡ (finish_create nova (one server) created.1).1.calls ++ delete_server sid ∷ [])
    unfolding create_vm
    create_vm_cleans server sid e made h raised m =
        let (c, s) =
          called_ok nova (create_server request) provisioning_timeout w (one server) made in
        let w' = (finish_create nova (one server) created.1).1 in
        let q = finish_create_raise (one server) created.1 e raised in
        ground (arith, made, raised, create_failed_cleans server sid e w' h (q.connected c) s m)
