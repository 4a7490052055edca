-- ===== src/Openstack/Lifecycle/Polling.antt =====
-- app/services/openstack/vm_provisioning_engine.py: reading servers, and the three polling loops.
-- A loop sleeps `poll_interval` in each round, so `rounds timeout` rounds reach any deadline that
-- lies `timeout` ahead; the loop's own test ends it.
use v_machine.Prelude.{
  ℕ, zero, suc, ◌+◌, ◌/◌, ◌==◌, String, Bool, true, false, ◌||◌, Option, none, some, List, [], ◌∷◌,
  ltb, if◌then◌else◌, str_eq, count_if,
}
use v_machine.Prelude.Exec.{Result, ok, raise, pure, ◌>>=◌, ◌>>◌}
use v_machine.Prelude.Text.{f_string}
use v_machine.Openstack.Server.{
  Exception, app, timeout_error, validation_error, sdk_error, VmDetail, serialize_vm, serialize_all,
}
use v_machine.Openstack.Connection.{get_server, servers, Value, one, many, Nova, Action, nova_call}

abbrev pub lifecycle_timeout : ℕ
lifecycle_timeout = 120000

abbrev pub poll_interval : ℕ
poll_interval = 3000

unfoldable pub rounds : ℕ → ℕ
rounds timeout = timeout / poll_interval + 1

abbrev pub server_not_found : Exception
server_not_found = app "Server not found" 404 "server_not_found"

-- `if not server: raise …; return _serialize_vm(server)`
unfoldable pub found : Value → Result Exception VmDetail
found (one server) = serialize_vm server
found _ = raise server_not_found

unfoldable pub listed : Value → Result Exception (List VmDetail)
listed (many ss) = serialize_all ss
listed _ = ok []

unfoldable pub sleep : Action (Unit {0})
sleep w = (ok tt, record w { clock = w.clock + poll_interval })

abbrev pub lift : {A : Type 0} → Result Exception A → Action A
lift r w = (r, w)

unfoldable pub check_status :
    (String → Bool) → (String → Exception) → VmDetail → Result Exception (Option VmDetail)
check_status reached failure detail =
    if reached detail.status
    then ok (some detail)
    else if str_eq detail.status "ERROR" || str_eq detail.status "UNKNOWN"
    then raise (failure detail.status)
    else ok none

unfoldable pub provisioning_failed : String → Exception
provisioning_failed status =
    app (f_string ("VM entered " ∷ status ∷ " state during provisioning" ∷ [])) 500
      "vm_provisioning_failed"

unfoldable pub stop_failed : String → Exception
stop_failed status =
    app (f_string ("VM entered " ∷ status ∷ " state while stopping" ∷ [])) 500 "vm_stop_failed"

abbrev pub is_active : String → Bool
is_active status = str_eq status "ACTIVE"

abbrev pub is_stopped : String → Bool
is_stopped status = str_eq status "SHUTOFF" || str_eq status "STOPPED"

-- the `except AppException` of `_wait_for_deleted`: a 404 ends the loop, as true
unfoldable pub check_gone : Result Exception VmDetail → Result Exception Bool
check_gone (ok detail) = ok false
check_gone (raise (app message status code)) =
    if status == 404 then ok true else raise (app message status code)
check_gone (raise timeout_error) = raise timeout_error
check_gone (raise validation_error) = raise validation_error
check_gone (raise (sdk_error name)) = raise (sdk_error name)

-- vmw_vm_active_count.set(active); return active
unfoldable pub set_active : ℕ → Action ℕ
set_active active w = (ok active, record w { active_count = active })

-- the end of a round: return what was found, or sleep and go on
unfoldable pub go_on : {A : Type 0} → Option A → Action A → Action A
go_on (some a) rest = pure a
go_on none rest = do sleep; rest

module _ (nova : Nova) where
  unfoldable pub get_vm : String → Action VmDetail
  get_vm server_id = do
    server ← nova_call nova (get_server server_id) lifecycle_timeout
    lift (found server)

  unfoldable pub list_vms : Action (List VmDetail)
  list_vms = do value ← nova_call nova servers lifecycle_timeout; lift (listed value)

  unfoldable pub get_active_count : Action ℕ
  get_active_count = do
    vms ← list_vms
    let active = count_if (λ s. str_eq s.status "ACTIVE") vms
    set_active active

  -- One loop for `_wait_for_active` and `_wait_for_stopped`: `reached` ends it with the detail, ERROR
  -- and UNKNOWN raise `failure`.
  module _ (server_id : String) (reached : String → Bool) (failure : String → Exception) where
    -- one round: None if the loop goes on
    unfoldable pub poll : Action (Option VmDetail)
    poll = do detail ← get_vm server_id; lift (check_status reached failure detail)

    unfoldable pub wait_until : ℕ → ℕ → Action VmDetail
    wait_until zero deadline w = (raise timeout_error, w)
    wait_until (suc n) deadline w = elim (ltb w.clock deadline) [
      | false ↦ (raise timeout_error, w)
      | true ↦ (do reached_detail ← poll; go_on reached_detail (wait_until n deadline)) w
    ]

  unfoldable pub wait_for_active : String → ℕ → Action VmDetail
  wait_for_active server_id timeout w =
      wait_until server_id is_active provisioning_failed (rounds timeout) (w.clock + timeout) w

  unfoldable pub wait_for_stopped : String → ℕ → Action VmDetail
  wait_for_stopped server_id timeout w =
      wait_until server_id is_stopped stop_failed (rounds timeout) (w.clock + timeout) w

  unfoldable pub poll_gone : String → Action Bool
  poll_gone server_id w = let (r, w') = get_vm server_id w in (check_gone r, w')

  unfoldable pub wait_until_gone : String → ℕ → ℕ → Action (Unit {0})
  wait_until_gone server_id zero deadline w = (ok tt, w)
  wait_until_gone server_id (suc n) deadline w = elim (ltb w.clock deadline) [
    | false ↦ (ok tt, w)
    | true ↦
        (do
          gone ← poll_gone server_id
          go_on (if gone then some tt else none) (wait_until_gone server_id n deadline))
          w
  ]

  unfoldable pub wait_for_deleted : String → ℕ → Action (Unit {0})
  wait_for_deleted server_id timeout w =
      wait_until_gone server_id (rounds timeout) (w.clock + timeout) w
