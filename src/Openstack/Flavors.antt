-- ===== src/Openstack/Flavors.antt =====
-- app/services/openstack/flavor_service.py, FlavorService, with app/schemas/openstack/flavor.py.
use v_machine.Prelude.{ℕ, String, Bool, Option, none, List, map}
use v_machine.Prelude.Exec.{pure, throw, ◌>>=◌}
use v_machine.Openstack.Server.{sdk_error}
use v_machine.Openstack.Client.{Api, Listing, Sdk, Action, call, listed}
use v_machine.Openstack.Cached.{required, deleted_or}

-- The attributes that are read of a flavor of the SDK.
pub record SdkFlavor : Type 0 where
  pub id : Option String
  pub name : Option String
  pub vcpus : Option ℕ
  pub ram : Option ℕ
  pub disk : Option ℕ

pub record FlavorSummary : Type 0 where
  pub id : Option String
  pub name : Option String
  pub vcpus : Option ℕ
  pub ram : Option ℕ
  pub disk : Option ℕ
  pub operation_task_id : Option String

pub record FlavorCreateRequest : Type 0 where
  pub name : String
  pub vcpus : ℕ
  pub ram : ℕ
  pub disk : ℕ

-- A call; `delete_flavor` has ignore_missing=True.
pub data FlavorCall : Type 0 where
  flavors : ℕ → FlavorCall
  get_flavor delete_flavor : String → FlavorCall

abbrev operation_of : FlavorCall → String
operation_of (flavors limit) = "flavors"
operation_of (get_flavor id) = "get_flavor"
operation_of (delete_flavor id) = "delete_flavor"

abbrev Reply : FlavorCall → Type 0
Reply (flavors limit) = Listing SdkFlavor
Reply (get_flavor id) = Option SdkFlavor
Reply (delete_flavor id) = Bool

abbrev pub flavor_api : Api
flavor_api = record {
  Call = FlavorCall;
  service_of = λ c. "compute";
  operation_of = operation_of;
  Reply = Reply;
}

abbrev pub flavor_summary : SdkFlavor → FlavorSummary
flavor_summary flavor = record {
  id = flavor.id;
  name = flavor.name;
  vcpus = flavor.vcpus;
  ram = flavor.ram;
  disk = flavor.disk;
  operation_task_id = none;
}

module _ {S : Type 0} (sdk : Sdk flavor_api) (list_limit : ℕ) where
  unfoldable pub list_flavors : Action flavor_api S (List FlavorSummary)
  list_flavors = do
    listing ← call sdk (flavors list_limit)
    items ← listed listing
    pure (map flavor_summary items)

  unfoldable pub get_flavor_summary : String → Action flavor_api S FlavorSummary
  get_flavor_summary flavor_id = do
    flavor ← call sdk (get_flavor flavor_id)
    flavor ← required "Flavor not found" "flavor_not_found" flavor
    pure (flavor_summary flavor)

  -- The request has no attribute `extra_specs`, which is read before the call.
  unfoldable pub create_flavor : FlavorCreateRequest → Action flavor_api S FlavorSummary
  create_flavor payload = throw (sdk_error "AttributeError")

  unfoldable pub remove_flavor : String → Action flavor_api S (Unit {0})
  remove_flavor flavor_id = do
    deleted ← call sdk (delete_flavor flavor_id)
    deleted_or "Flavor not found" "flavor_not_found" deleted
