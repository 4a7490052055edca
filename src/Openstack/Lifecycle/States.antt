-- ===== src/Openstack/Lifecycle/States.antt =====
-- app/services/openstack/vm_provisioning_engine.py: the states in which an operation is allowed.
use v_machine.Prelude.{String, Bool, List, [], ◌∷◌, if◌then◌else◌, str_eq, any}
use v_machine.Prelude.Exec.{Result, ok, raise}
use v_machine.Prelude.Text.{f_string}
use v_machine.Openstack.Server.{Exception, app}
use v_machine.Openstack.Connection.{Call, delete_server, start_server, stop_server, reboot_server}

pub data Operation : Type 0 where
  start stop reboot delete : Operation

abbrev pub operation_name : Operation → String
operation_name start = "start"
operation_name stop = "stop"
operation_name reboot = "reboot"
operation_name delete = "delete"

-- VALID_STATE_TRANSITIONS
unfoldable pub valid_states : Operation → List String
valid_states start = "SHUTOFF" ∷ "STOPPED" ∷ "SUSPENDED" ∷ "ERROR" ∷ []
valid_states stop = "ACTIVE" ∷ "PAUSED" ∷ []
valid_states reboot = "ACTIVE" ∷ []
valid_states delete = "ACTIVE" ∷ "SHUTOFF" ∷ "STOPPED" ∷ "ERROR" ∷ "SUSPENDED" ∷ []

abbrev pub is_allowed : String → Operation → Bool
is_allowed status operation = any (str_eq status) (valid_states operation)

-- f"{allowed}", Python's print of a list of texts
print_rest : List String → String
print_rest [] = "]"
print_rest (s ∷ ss) = f_string (", '" ∷ s ∷ "'" ∷ print_rest ss ∷ [])

print_list : List String → String
unfolding print_rest
print_list [] = "[]"
print_list (s ∷ ss) = f_string ("['" ∷ s ∷ "'" ∷ print_rest ss ∷ [])

unfoldable pub refusal : String → Operation → Exception
unfolding print_list
refusal status operation =
    app
      (f_string (
        "Cannot "
        ∷ operation_name operation
        ∷ " VM in state '"
        ∷ status
        ∷ "' (allowed: "
        ∷ print_list (valid_states operation)
        ∷ ")"
        ∷ []))
      409 "invalid_state_transition"

-- `_validate_state`
unfoldable pub validate_state : String → Operation → Result Exception (Unit {0})
validate_state status operation =
    if is_allowed status operation then ok tt else raise (refusal status operation)

-- `_operation_to_sdk`, with the server's id
abbrev pub operation_to_sdk : Operation → String → Call
operation_to_sdk start id = start_server id
operation_to_sdk stop id = stop_server id
operation_to_sdk reboot id = reboot_server id
operation_to_sdk delete id = delete_server id
