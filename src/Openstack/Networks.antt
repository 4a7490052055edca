-- ===== src/Openstack/Networks.antt =====
-- app/services/openstack/network_service.py, NetworkService, with app/schemas/openstack/network.py.
use v_machine.Prelude.{
  ℕ, String, Bool, Option, none, some, List, [], ◌∷◌, map, str_eq, if◌then◌else◌,
}
use v_machine.Prelude.Exec.{pure, throw, ◌>>=◌, ◌>>◌}
use v_machine.Prelude.Text.{f_string}
use v_machine.Cache.Backend.{Backend}
use v_machine.Openstack.Server.{app}
use v_machine.Openstack.Client.{Api, Listing, Sdk, Action, call, listed}
use v_machine.Openstack.Cached.{required, deleted_or, cached_or, cache_invalidate}

-- The attributes that are read of a network and of a subnet of the SDK; a created network has an id.
pub record Network : Type 0 where
  pub id : Option String
  pub name : Option String
  pub status : Option String
  pub shared : Option Bool
  pub admin_state_up : Option Bool

pub record Subnet : Type 0 where
  pub id : Option String
  pub name : Option String
  pub cidr : Option String
  pub enable_dhcp : Option Bool
  pub gateway_ip : Option String
  pub network_id : Option String

pub record NetworkSummary : Type 0 where
  pub id : Option String
  pub name : Option String
  pub status : Option String
  pub subnets : List String
  pub admin_state_up : Option Bool
  pub shared : Option Bool
  pub is_router_external : Option Bool

pub record SubnetSummary : Type 0 where
  pub id : Option String
  pub name : Option String
  pub cidr : Option String
  pub gateway_ip : Option String
  pub ip_version : Option ℕ
  pub enable_dhcp : Option Bool
  pub dns_nameservers : List String

pub record NetworkCreateRequest : Type 0 where
  pub name : String
  pub cidr : String
  pub subnet_name : Option String
  pub ip_version : ℕ
  pub gateway_ip : Option String
  pub enable_dhcp : Bool
  pub shared : Bool
  pub admin_state_up : Bool
  pub dns_nameservers : List String

-- A call: `find_network` and `delete_network` have ignore_missing=True; `create_network` gets a name,
-- with admin_state_up=True; `create_subnet` gets a name, the network's id and the CIDR, with
-- ip_version=4 and enable_dhcp=True.
pub data NetworkCall : Type 0 where
  networks : ℕ → NetworkCall
  subnets : NetworkCall
  get_network get_subnet find_network delete_network create_network : String → NetworkCall
  create_subnet : String → Option String → String → NetworkCall

abbrev operation_of : NetworkCall → String
operation_of (networks limit) = "networks"
operation_of subnets = "subnets"
operation_of (get_network id) = "get_network"
operation_of (get_subnet id) = "get_subnet"
operation_of (find_network name) = "find_network"
operation_of (delete_network id) = "delete_network"
operation_of (create_network name) = "create_network"
operation_of (create_subnet name id cidr) = "create_subnet"

abbrev Reply : NetworkCall → Type 0
Reply (networks limit) = Listing Network
Reply subnets = Listing Subnet
Reply (get_network id) = Option Network
Reply (get_subnet id) = Option Subnet
Reply (find_network name) = Option Network
Reply (delete_network id) = Bool
Reply (create_network name) = Network
Reply (create_subnet name id cidr) = Subnet

abbrev pub network_api : Api
network_api = record {
  Call = NetworkCall;
  service_of = λ c. "network";
  operation_of = operation_of;
  Reply = Reply;
}

-- A cached network: the model, or the dict that json makes of it.
pub data NetworkItem : Type 0 where
  network_model : NetworkSummary → NetworkItem
  network_mapping : NetworkSummary → NetworkItem

abbrev pub network_summary : Network → NetworkSummary
network_summary n = record {
  id = n.id;
  name = n.name;
  status = n.status;
  subnets = [];
  admin_state_up = n.admin_state_up;
  shared = n.shared;
  is_router_external = none;
}

abbrev pub subnet_summary : Subnet → SubnetSummary
subnet_summary s = record {
  id = s.id;
  name = s.name;
  cidr = s.cidr;
  gateway_ip = s.gateway_ip;
  ip_version = none;
  enable_dhcp = s.enable_dhcp;
  dns_nameservers = [];
}

-- the subnets whose network_id is the given one
unfoldable pub subnets_of : String → List Subnet → List Subnet
subnets_of network_id [] = []
subnets_of network_id (s ∷ all_subnets) =
    let rest = subnets_of network_id all_subnets in
    elim s.network_id [ none ↦ rest | some id ↦ if str_eq id network_id then s ∷ rest else rest ]

module _ (sdk : Sdk network_api) (cache : Backend (List NetworkItem)) (list_limit : ℕ) where
  abbrev pub NetworkAction : Type 0 → Type 0
  NetworkAction A = Action network_api cache.State A

  unfoldable pub list_networks : NetworkAction (List NetworkItem)
  list_networks = cached_or cache "networks" (do
    listing ← call sdk (networks list_limit)
    items ← listed listing
    pure (map (λ n. network_model (network_summary n)) items))

  unfoldable pub get_network_summary : String → NetworkAction NetworkSummary
  get_network_summary network_id = do
    network ← call sdk (get_network network_id)
    network ← required "Network not found" "network_not_found" network
    pure (network_summary network)

  unfoldable pub get_network_subnets : String → NetworkAction (List SubnetSummary)
  get_network_subnets network_id = do
    listing ← call sdk subnets
    all_subnets ← listed listing
    pure (map subnet_summary (subnets_of network_id all_subnets))

  unfoldable pub get_subnet_summary : String → NetworkAction SubnetSummary
  get_subnet_summary subnet_id = do
    subnet ← call sdk (get_subnet subnet_id)
    subnet ← required "Subnet not found" "subnet_not_found" subnet
    pure (subnet_summary subnet)

  -- `if existing: raise AppException(…, 409, …)`
  unfoldable pub refuse_existing : String → Option Network → NetworkAction (Unit {0})
  refuse_existing name none = pure tt
  refuse_existing name (some existing) =
      throw
        (app (f_string ("Network '" ∷ name ∷ "' already exists" ∷ [])) 409 "network_already_exists")

  -- Of the request, the name and the CIDR are used.
  unfoldable pub make_network : NetworkCreateRequest → NetworkAction NetworkSummary
  make_network payload = do
    existing ← call sdk (find_network payload.name)
    refuse_existing payload.name existing
    network ← call sdk (create_network payload.name)
    call sdk (create_subnet (f_string (payload.name ∷ "-subnet" ∷ [])) network.id payload.cidr)
    cache_invalidate cache "networks"
    pure (network_summary network)

  unfoldable pub remove_network : String → NetworkAction (Unit {0})
  remove_network network_id = do
    deleted ← call sdk (delete_network network_id)
    deleted_or "Network not found" "network_not_found" deleted
    cache_invalidate cache "networks"
