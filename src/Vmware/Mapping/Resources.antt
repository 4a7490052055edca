-- ===== src/Vmware/Mapping/Resources.antt =====
-- app/services/vmware/mapping_engine.py: the engine's two caches of OpenStack resources. The
-- answers of `os_factory.call` are a parameter, and each observation of the metric
-- vmw_openstack_api_duration is its labels `operation` and `status`.
use v_machine.Prelude.{ℕ, String, Option, none, some, List, [], ◌∷◌, ◌++◌}
use v_machine.Prelude.Exec.{Result, ok, raise, Exec}

-- What may be raised: the integration error of the factory, or Python's ValueError.
pub data Error : Type 0 where
  integration : String → Error
  value_error : Error

-- app/schemas/openstack/flavor.py, FlavorSummary: the fields that the engine sets
pub record OsFlavor : Type 0 where
  pub id : Option String
  pub name : Option String
  pub vcpus : Option ℕ
  pub ram : Option ℕ
  pub disk : Option ℕ

-- app/schemas/openstack/network.py, NetworkSummary: the fields that the engine sets
pub record OsNetwork : Type 0 where
  pub id : Option String
  pub name : Option String

pub record Openstack : Type 0 where
  pub flavors : Result Error (List OsFlavor)
  pub networks : Result Error (List OsNetwork)

pub record Engine : Type 0 where
  pub flavor_cache : Option (List OsFlavor)
  pub network_cache : Option (List OsNetwork)
  pub observed : List (String × String)

observe : String → String → Engine → Engine
observe operation status e = record e { observed = e.observed ++ (operation, status) ∷ [] }

unfoldable pub get_flavors : Openstack → Exec Error Engine (List OsFlavor)
unfolding observe
get_flavors os e = elim e.flavor_cache [
  | some flavors ↦ (ok flavors, e)
  | none ↦ elim os.flavors [
    | raise x ↦ (raise x, observe "flavors" "error" e)
    | ok raw ↦ (ok raw, record (observe "flavors" "success" e) { flavor_cache = some raw })
  ]
]

unfoldable pub get_networks : Openstack → Exec Error Engine (List OsNetwork)
unfolding observe
get_networks os e = elim e.network_cache [
  | some networks ↦ (ok networks, e)
  | none ↦ elim os.networks [
    | raise x ↦ (raise x, observe "networks" "error" e)
    | ok raw ↦ (ok raw, record (observe "networks" "success" e) { network_cache = some raw })
  ]
]
