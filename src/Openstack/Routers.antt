-- ===== src/Openstack/Routers.antt =====
-- app/services/openstack/router_service.py, RouterService, with app/schemas/openstack/router.py.
use v_machine.Prelude.{String, Bool, true, Option, none, some, List, [], ◌∷◌, map}
use v_machine.Prelude.Exec.{pure, throw, ◌>>=◌, ◌>>◌}
use v_machine.Prelude.Text.{f_string}
use v_machine.Openstack.Server.{app}
use v_machine.Openstack.Client.{Api, Listing, Sdk, Action, call, listed}
use v_machine.Openstack.Cached.{required, deleted_or, attribute}

-- The attributes that are read of a router of the SDK.
pub record Router : Type 0 where
  pub id : Option String
  pub name : Option (Option String)
  pub status : Option (Option String)
  pub admin_state_up : Option (Option Bool)

-- external_gateway_info is never set
pub record RouterSummary : Type 0 where
  pub id : Option String
  pub name : Option String
  pub status : Option String
  pub admin_state_up : Option Bool

pub record RouterCreateRequest : Type 0 where
  pub name : String
  pub admin_state_up : Bool
  pub external_network_id : Option String

-- A call: `find_router` and `delete_router` have ignore_missing=True, `create_router` has the name and
-- admin_state_up=True.
pub data RouterCall : Type 0 where
  routers : RouterCall
  get_router find_router delete_router create_router : String → RouterCall
  add_interface_to_router remove_interface_from_router : Router → String → RouterCall

abbrev operation_of : RouterCall → String
operation_of routers = "routers"
operation_of (get_router id) = "get_router"
operation_of (find_router name) = "find_router"
operation_of (delete_router id) = "delete_router"
operation_of (create_router name) = "create_router"
operation_of (add_interface_to_router router subnet) = "add_interface_to_router"
operation_of (remove_interface_from_router router subnet) = "remove_interface_from_router"

abbrev Reply : RouterCall → Type 0
Reply routers = Listing Router
Reply (get_router id) = Option Router
Reply (find_router name) = Option Router
Reply (delete_router id) = Bool
Reply (create_router name) = Router
Reply _ = Unit {0}

abbrev pub router_api : Api
router_api = record {
  Call = RouterCall;
  service_of = λ c. "network";
  operation_of = operation_of;
  Reply = Reply;
}

abbrev pub router_summary : Router → RouterSummary
router_summary r = record {
  id = r.id;
  name = attribute (some "") r.name;
  status = attribute (some "") r.status;
  admin_state_up = attribute (some true) r.admin_state_up;
}

module _ {S : Type 0} (sdk : Sdk router_api) where
  -- the lookup of a router, and its guard
  unfoldable pub find_by_id : String → Action router_api S Router
  find_by_id router_id = do
    router ← call sdk (get_router router_id)
    required "Router not found" "router_not_found" router

  unfoldable pub get_router_summary : String → Action router_api S RouterSummary
  get_router_summary router_id = do router ← find_by_id router_id; pure (router_summary router)

  unfoldable pub list_routers : Action router_api S (List RouterSummary)
  list_routers = do
    listing ← call sdk routers
    items ← listed listing
    pure (map router_summary items)

  -- `if existing: raise AppException(…, 409, …)`
  unfoldable pub refuse_router : String → Option Router → Action router_api S (Unit {0})
  refuse_router name none = pure tt
  refuse_router name (some existing) =
      throw
        (app (f_string ("Router '" ∷ name ∷ "' already exists" ∷ [])) 409 "router_already_exists")

  unfoldable pub make_router : RouterCreateRequest → Action router_api S RouterSummary
  make_router payload = do
    existing ← call sdk (find_router payload.name)
    refuse_router payload.name existing
    router ← call sdk (create_router payload.name)
    pure (router_summary router)

  unfoldable pub remove_router : String → Action router_api S (Unit {0})
  remove_router router_id = do
    deleted ← call sdk (delete_router router_id)
    deleted_or "Router not found" "router_not_found" deleted

  unfoldable pub attach_subnet : String → String → Action router_api S (Unit {0})
  attach_subnet router_id subnet_id = do
    router ← find_by_id router_id
    call sdk (add_interface_to_router router subnet_id)

  unfoldable pub detach_subnet : String → String → Action router_api S (Unit {0})
  detach_subnet router_id subnet_id = do
    router ← find_by_id router_id
    call sdk (remove_interface_from_router router subnet_id)
