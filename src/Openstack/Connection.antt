-- ===== src/Openstack/Connection.antt =====
-- app/clients/openstack/connection.py, and `_nova_call` of
-- app/services/openstack/vm_provisioning_engine.py: the cached connection, and a call of Nova's SDK
-- with a timeout. The SDK is the parameter `Nova`. Time is in milliseconds.
use v_machine.Prelude.{
  ℕ, ◌+◌, String, Bool, true, Option, none, some, List, [], ◌∷◌, ◌++◌, leb, if◌then◌else◌,
}
use v_machine.Prelude.Exec.{Result, ok, raise, Exec, ◌>>◌}
use v_machine.Prelude.Text.{f_string}
use v_machine.Prelude.Dict.{Dict}
use v_machine.Openstack.Server.{Exception, app, timeout_error, Server}

-- app/schemas/openstack/vm_lifecycle.py
pub record VmCreateRequest : Type 0 where
  pub name : String
  pub flavor_id : String
  pub image_id : String
  pub network_ids : List String
  pub keypair : Option String
  pub security_groups : Option (List String)
  pub availability_zone : Option String
  pub metadata : Dict String

-- A call of the SDK's compute proxy. `delete_server` has ignore_missing=True, `reboot_server` has
-- reboot_type="SOFT".
pub data Call : Type 0 where
  create_server : VmCreateRequest → Call
  get_server delete_server start_server stop_server reboot_server : String → Call
  servers : Call

abbrev pub method_name : Call → String
method_name (create_server request) = "create_server"
method_name (get_server id) = "get_server"
method_name (delete_server id) = "delete_server"
method_name (start_server id) = "start_server"
method_name (stop_server id) = "stop_server"
method_name (reboot_server id) = "reboot_server"
method_name servers = "servers"

-- What a call returns: nothing, a server, or servers.
pub data Value : Type 0 where
  nothing : Value
  one : Server → Value
  many : List Server → Value

-- The SDK and the cloud behind it: the outcome and the duration of a call may depend on all calls
-- before it. `ready` is Settings.openstack_ready, `constructed` what `Connection(…)` raises, if it
-- raises.
pub record Nova : Type 0 where
  pub ready : Bool
  pub constructed : List Call → Option String
  pub has_compute : Bool
  pub has_method : String → Bool
  pub outcome : List Call → Call → Result Exception Value
  pub duration : List Call → Call → ℕ

-- audit_service.enqueue_audit_entry, with the arguments that the engine gives
pub record AuditEntry : Type 0 where
  pub action : String
  pub resource_id : Option String
  pub status : String
  pub error_type : Option String

-- The engine's world: the clock, the factory's cache, the calls made, the metrics (each
-- observation by its labels) and the audit queue.
pub record World : Type 0 where
  pub clock : ℕ
  pub connected : Bool
  pub calls : List Call
  pub active_count : ℕ
  pub operations : List (String × String)
  pub create_durations : List String
  pub create_failures : List String
  pub audit : List AuditEntry

abbrev pub Action : Type 0 → Type 0
Action A = Exec Exception World A

abbrev pub integration_error : String → Exception
integration_error message = app message 502 "openstack_error"

module _ (nova : Nova) where
  -- OpenStackConnectionFactory.create
  unfoldable pub connect : Action (Unit {0})
  connect w =
      if w.connected
      then (ok tt, w)
      else if nova.ready
      then elim (nova.constructed w.calls) [
        | none ↦ (ok tt, record w { connected = true })
        | some message ↦ (
          raise (
              integration_error
                (f_string ("Failed to create OpenStack connection: " ∷ message ∷ []))),
          w,
        )
      ]
      else (
        raise (
            app
              "OpenStack settings are incomplete. Fill the required OPENSTACK_* environment variables."
              503 "openstack_not_configured"),
        w,
      )

  -- call_with_timeout: the call is made in a thread, and is given up after `timeout`
  unfoldable pub call_with_timeout : Call → ℕ → Action Value
  call_with_timeout call timeout w =
      let lasts = nova.duration w.calls call in
      let outcome = nova.outcome w.calls call in
      if leb timeout lasts
      then (
        raise timeout_error,
        record w { clock = w.clock + timeout; calls = w.calls ++ call ∷ [] },
      )
      else (outcome, record w { clock = w.clock + lasts; calls = w.calls ++ call ∷ [] })

  -- the two `getattr` guards
  unfoldable pub find_method : Call → Action (Unit {0})
  find_method call w =
      if nova.has_compute
      then if nova.has_method (method_name call) then (ok tt, w) else (
        raise (integration_error (f_string ("Unknown compute method: " ∷ method_name call ∷ []))),
        w,
      )
      else (raise (integration_error "OpenStack compute service not available"), w)

  unfoldable pub nova_call : Call → ℕ → Action Value
  nova_call call timeout = do connect; find_method call; call_with_timeout call timeout
