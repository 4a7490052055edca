-- ===== src/Openstack/Lifecycle/Tests.antt =====
-- VMProvisioningEngine against small clouds, run on concrete inputs.
use v_machine.Prelude.{
  ◌≡◌, refl, String, Bool, true, false, none, some, List, [], ◌∷◌, ◌++◌, any, if◌then◌else◌,
}
use v_machine.Prelude.Exec.{Result, ok, raise}
use v_machine.Openstack.Server.{
  Exception, app, sdk_error, Server, VmDetail, get_id, serialize_vm, extract_reference_id,
  extract_addresses, or_empty_dict, power_state_of,
}
use v_machine.Openstack.Connection.{
  VmCreateRequest, Call, create_server, get_server, delete_server, servers, Value, nothing, one,
  Nova, World, connect, find_method, call_with_timeout, nova_call,
}
use v_machine.Openstack.Lifecycle.{
  lifecycle_operation, create_vm, delete_vm, perform_delete, count_operation, finish_create,
  await_deletion, value_id, count_active, enqueue_audit,
}
use v_machine.Openstack.Lifecycle.States.{
  start, stop, delete, refusal, validate_state, is_allowed, valid_states,
}
use v_machine.Openstack.Lifecycle.Polling.{
  found, check_gone, poll_gone, wait_until_gone, wait_for_deleted, wait_for_active, check_status,
  get_vm, get_active_count, list_vms, rounds, wait_until, poll, go_on, provisioning_failed,
}
use v_machine.Openstack.Lifecycle.Accounting.{
  status_of, error_of, lifecycle_accounted, lifecycle_refused, counted, delete_counted_twice,
}
use v_machine.Openstack.Lifecycle.Polling.{wait_for_stopped, wait_for_deleted}
use v_machine.Openstack.Lifecycle.Loops.{
  Waits, Vanishes, IsActive, IsStopped, not_provisioned, not_stopped, loops_observed,
}
use v_machine.Openstack.Lifecycle.Creation.{
  created, create_vm_reports, create_vm_active, create_vm_cleans,
}

-- a server of the given status
abbrev server_in : String → Server
server_in status = record {
  id = some "s1";
  name = some "web";
  status = some status;
  created = none;
  updated = none;
  key_name = none;
  project_id = none;
  availability_zone = none;
  progress = none;
  flavor = none;
  image = none;
  addresses = none;
  metadata = none;
  ext_power_state = none;
  vm_state = none;
}

abbrev is_delete : Call → Bool
is_delete (delete_server id) = true
is_delete _ = false

-- A server keeps its status until it is deleted; the listing of servers fails.
abbrev answer : String → List Call → Call → Result Exception Value
answer status calls (create_server request) = ok (one (server_in "BUILD"))
answer status calls (get_server id) =
    if any is_delete calls
    then raise (app "No server found" 404 "not_found")
    else ok (one (server_in status))
answer status calls servers = raise (sdk_error "HttpException")
answer status calls _ = ok nothing

abbrev cloud : String → Nova
cloud status = record {
  ready = true;
  constructed = λ calls. none;
  has_compute = true;
  has_method = λ name. true;
  outcome = answer status;
  duration = λ calls call. 100;
}

abbrev empty_world : World
empty_world = record {
  clock = 0;
  connected = false;
  calls = [];
  active_count = 0;
  operations = [];
  create_durations = [];
  create_failures = [];
  audit = [];
}

abbrev detail_in : String → VmDetail
detail_in status = record {
  id = "s1";
  name = "web";
  status = status;
  flavor_id = none;
  image_id = none;
  addresses = [];
  metadata = [];
  created = none;
  updated = none;
  key_name = none;
  availability_zone = none;
  power_state = none;
  progress = none;
}

abbrev request : VmCreateRequest
request = record {
  name = "web";
  flavor_id = "f";
  image_id = "i";
  network_ids = "n" ∷ [];
  keypair = none;
  security_groups = none;
  availability_zone = none;
  metadata = [];
}

lifecycle_accounted_example :
    let out = lifecycle_operation (cloud "ACTIVE") stop "s1" empty_world in
    (out.1.operations ≡ [] ++ ("stop", status_of out.0) ∷ [])
    × (out.1.audit
        ≡ []
          ++ record {
            action = "vm.stop";
            resource_id = some "s1";
            status = status_of out.0;
            error_type = error_of out.0;
          }
            ∷ [])
lifecycle_accounted_example = lifecycle_accounted (cloud "ACTIVE") stop "s1" empty_world

got_active : (get_vm (cloud "ACTIVE") "s1" empty_world).0 ≡ ok (detail_in "ACTIVE")
unfolding get_vm nova_call connect find_method call_with_timeout found serialize_vm
    extract_reference_id extract_addresses or_empty_dict power_state_of
got_active = refl

got_paused : (get_vm (cloud "PAUSED") "s1" empty_world).0 ≡ ok (detail_in "PAUSED")
unfolding get_vm nova_call connect find_method call_with_timeout found serialize_vm
    extract_reference_id extract_addresses or_empty_dict power_state_of
got_paused = refl

not_started : is_allowed "ACTIVE" start ≡ false
unfolding valid_states
not_started = refl

not_deleted : is_allowed "PAUSED" delete ≡ false
unfolding valid_states
not_deleted = refl

lifecycle_refused_example :
    let out = lifecycle_operation (cloud "ACTIVE") start "s1" empty_world in
    (out.0 ≡ raise (refusal "ACTIVE" start))
    × (out.1.calls ≡ (get_vm (cloud "ACTIVE") "s1" empty_world).1.calls)
    × (out.1.active_count ≡ (get_vm (cloud "ACTIVE") "s1" empty_world).1.active_count)
lifecycle_refused_example =
    lifecycle_refused (cloud "ACTIVE") start "s1" empty_world (detail_in "ACTIVE") got_active
      not_started

deleted : (perform_delete (cloud "ACTIVE") "s1" empty_world).0 ≡ ok tt
unfolding perform_delete validate_state valid_states await_deletion wait_for_deleted wait_until_gone
    rounds poll_gone check_gone go_on get_vm nova_call connect find_method call_with_timeout found
    serialize_vm extract_reference_id extract_addresses or_empty_dict power_state_of
deleted = refl

not_listed :
    (get_active_count (cloud "ACTIVE") (counted (cloud "ACTIVE") "s1" empty_world)).0
    ≡ raise (sdk_error "HttpException")
unfolding perform_delete validate_state valid_states await_deletion wait_for_deleted wait_until_gone
    rounds poll_gone check_gone go_on get_vm nova_call connect find_method call_with_timeout found
    serialize_vm extract_reference_id extract_addresses or_empty_dict power_state_of
    get_active_count list_vms count_operation
not_listed = refl

delete_counted_twice_example :
    let out = delete_vm (cloud "ACTIVE") "s1" empty_world in
    (out.0 ≡ raise (sdk_error "HttpException"))
    × (out.1.operations ≡ [] ++ (("delete", "success") ∷ ("delete", "failed") ∷ []))
delete_counted_twice_example =
    delete_counted_twice (cloud "ACTIVE") "s1" empty_world (sdk_error "HttpException") deleted
      not_listed

loops_observed_example :
    let active = wait_for_active (cloud "BUILD") "s1" 5000 empty_world in
    let stopped = wait_for_stopped (cloud "BUILD") "s1" 5000 empty_world in
    let deleted = wait_for_deleted (cloud "BUILD") "s1" 5000 empty_world in
    Waits (cloud "BUILD") "s1" 5000 IsActive not_provisioned empty_world active.0 active.1
    × (Waits (cloud "BUILD") "s1" 5000 IsStopped not_stopped empty_world stopped.0 stopped.1
        × Vanishes (cloud "BUILD") "s1" 5000 empty_world deleted.0 deleted.1)
loops_observed_example = loops_observed (cloud "BUILD") "s1" 5000 empty_world

create_vm_reports_example :
    let out = create_vm (cloud "ACTIVE") request empty_world in
    out.1.create_durations ≡ [] ++ status_of out.0 ∷ []
create_vm_reports_example = create_vm_reports (cloud "ACTIVE") request empty_world

created_active : (create_vm (cloud "ACTIVE") request empty_world).0 ≡ ok (detail_in "ACTIVE")
unfolding create_vm value_id get_id finish_create wait_for_active wait_until rounds poll
    check_status go_on get_vm nova_call connect find_method call_with_timeout found serialize_vm
    extract_reference_id extract_addresses or_empty_dict power_state_of count_active enqueue_audit
created_active = refl

create_vm_active_example :
    ((detail_in "ACTIVE").status ≡ "ACTIVE")
    × ((create_vm (cloud "ACTIVE") request empty_world).1.create_failures ≡ [])
create_vm_active_example =
    create_vm_active (cloud "ACTIVE") request empty_world (detail_in "ACTIVE") created_active

made : (created (cloud "ERROR") request empty_world).0 ≡ ok (one (server_in "BUILD"))
unfolding nova_call connect find_method call_with_timeout
made = refl

with_id : get_id (server_in "BUILD") ≡ ok "s1"
unfolding get_id
with_id = refl

broken :
    (finish_create
      (cloud "ERROR")
      (one (server_in "BUILD"))
      (created (cloud "ERROR") request empty_world).1).0
    ≡ raise (provisioning_failed "ERROR")
unfolding value_id get_id finish_create wait_for_active wait_until rounds poll check_status go_on
    get_vm nova_call connect find_method call_with_timeout found serialize_vm extract_reference_id
    extract_addresses or_empty_dict power_state_of
broken = refl

create_vm_cleans_example :
    let out = create_vm (cloud "ERROR") request empty_world in
    (out.0 ≡ raise (provisioning_failed "ERROR"))
    × (out.1.calls
        ≡ (finish_create
            (cloud "ERROR")
            (one (server_in "BUILD"))
            (created (cloud "ERROR") request empty_world).1).1.calls
          ++ delete_server "s1" ∷ [])
create_vm_cleans_example =
    create_vm_cleans (cloud "ERROR") request empty_world (server_in "BUILD") "s1"
      (provisioning_failed "ERROR") made with_id broken refl
