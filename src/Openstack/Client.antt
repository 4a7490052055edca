-- ===== src/Openstack/Client.antt =====
-- app/clients/openstack/connection.py, OpenStackConnectionFactory: the cached connection and `call`,
-- with its metrics. The SDK is the parameter `Sdk`. Time is in milliseconds.
use v_machine.Prelude.{
  ℕ, ◌+◌, String, Bool, true, false, Option, none, some, List, [], ◌∷◌, ◌++◌, if◌then◌else◌,
}
use v_machine.Prelude.Exec.{Result, ok, raise, Exec, ◌>>◌, modify}
use v_machine.Prelude.Text.{f_string}
use v_machine.Openstack.Server.{Exception, app}
use v_machine.Openstack.Connection.{integration_error}

-- The calls that a service makes, with the SDK's names, and what each returns.
pub record Api : Type 1 where
  pub Call : Type 0
  pub service_of : Call → String
  pub operation_of : Call → String
  pub Reply : Call → Type 0

-- A listing is a generator of the SDK: what it yields, and what it then raises, if it raises.
abbrev pub Listing : Type 0 → Type 0
Listing A = List A × Option Exception

-- The SDK and the cloud behind it: the outcome of a call may depend on all calls before it. `ready`
-- is Settings.openstack_ready, `constructed` what `Connection(…)` raises, if it raises; an exception
-- of a call has its class name and its text.
pub record Sdk (api : Api) : Type 0 where
  pub ready : Bool
  pub constructed : List api.Call → Option String
  pub has_service : String → Bool
  pub has_operation : String → String → Bool
  pub outcome : List api.Call → (c : api.Call) → Result (String × String) (api.Reply c)
  pub duration : List api.Call → api.Call → ℕ

-- The world of the services that call OpenStack: the clock, the factory, the calls made, the metrics
-- by their labels, and the cache of lists.
pub record World (api : Api) (S : Type 0) : Type 0 where
  pub clock : ℕ
  pub connected : Bool
  pub calls : List api.Call
  pub errors : List (String × String)
  pub durations : List ((String × String) × ℕ)
  pub cache : S

abbrev pub Action : Api → Type 0 → Type 0 → Type 0
Action api S A = Exec Exception (World api S) A

module _ {api : Api} {S : Type 0} where
  module _ (sdk : Sdk api) where
    unfoldable pub create : Action api S (Unit {0})
    create w =
        if w.connected
        then (ok tt, w)
        else if sdk.ready
        then elim (sdk.constructed w.calls) [
          | none ↦ (ok tt, record w { connected = true })
          | some message ↦ (
            raise (
                integration_error
                  (f_string ("Failed to create OpenStack connection: " ∷ message ∷ []))),
            w,
          )
        ]
        else (
          raise (
              app
                "OpenStack settings are incomplete. Fill the required OPENSTACK_* environment variables."
                503 "openstack_not_configured"),
          w,
        )

    -- the two `getattr` guards
    unfoldable pub find_operation : api.Call → Action api S (Unit {0})
    find_operation c w =
        if sdk.has_service (api.service_of c)
        then if sdk.has_operation (api.service_of c) (api.operation_of c) then (ok tt, w) else (
          raise (
              integration_error (
                f_string
                  ("Unknown " ∷ api.service_of c ∷ " operation: " ∷ api.operation_of c ∷ []))),
          w,
        )
        else (
          raise (
              integration_error (f_string ("Unknown OpenStack service: " ∷ api.service_of c ∷ []))),
          w,
        )

    -- the call itself, with the clock and the log after it
    abbrev pub called : api.Call → World api S → World api S
    called c w = record w { clock = w.clock + sdk.duration w.calls c; calls = w.calls ++ c ∷ [] }

    -- the outcome, and its metrics
    unfoldable pub recorded :
        (c : api.Call) → Result (String × String) (api.Reply c) → Action api S (api.Reply c)
    recorded c (ok reply) w = (
      ok reply,
      record (called c w) {
        durations =
            w.durations ++ ((api.service_of c, api.operation_of c), sdk.duration w.calls c) ∷ [];
      },
    )
    recorded c (raise e) w = (
      raise (
          integration_error
            (f_string (api.service_of c ∷ "." ∷ api.operation_of c ∷ " failed: " ∷ e.1 ∷ []))),
      record (called c w) { errors = w.errors ++ (api.service_of c, e.0) ∷ [] },
    )

    unfoldable pub measured : (c : api.Call) → Action api S (api.Reply c)
    measured c w = recorded c (sdk.outcome w.calls c) w

    unfoldable pub call : (c : api.Call) → Action api S (api.Reply c)
    call c = do create; find_operation c; measured c

  unfoldable pub invalidate : Action api S (Unit {0})
  invalidate = modify (λ w. record w { connected = false })

  -- a loop over a listing
  unfoldable pub listed : {A : Type 0} → Listing A → Action api S (List A)
  listed (items, failure) w = elim failure [ none ↦ (ok items, w) | some e ↦ (raise e, w) ]
