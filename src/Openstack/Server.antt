-- ===== src/Openstack/Server.antt =====
-- app/services/openstack/vm_provisioning_engine.py: a server as Nova's SDK gives it, and the
-- `_serialize_vm` that makes a VMDetail of it (app/schemas/openstack/vm_lifecycle.py).
use v_machine.Prelude.{ℕ, String, Option, none, some, List, [], ◌∷◌, if◌then◌else◌, str_eq}
use v_machine.Prelude.Exec.{Result, ok, raise}
use v_machine.Prelude.Dict.{Dict, insert}

-- What the engine's calls raise: AppException with its message, status code and error code;
-- a timeout; pydantic's refusal; and an exception of the SDK, by its class name.
pub data Exception : Type 0 where
  app : String → ℕ → String → Exception
  timeout_error : Exception
  validation_error : Exception
  sdk_error : String → Exception

-- a flavor or an image: a mapping, or an object with an attribute `id`
pub data Reference : Type 0 where
  mapping : Option String → Reference
  object : Option String → Reference

-- one entry of a network's address list
pub data AddressEntry : Type 0 where
  not_a_mapping : AddressEntry
  address : Option String → AddressEntry

-- The attributes that the services read; `none` is an absent attribute. A key or a list of
-- addresses that is not text or not a list is `none`.
pub record Server : Type 0 where
  pub id : Option String
  pub name : Option String
  pub status : Option String
  pub created : Option String
  pub updated : Option String
  pub key_name : Option String
  pub project_id : Option String
  pub availability_zone : Option String
  pub progress : Option ℕ
  pub flavor : Option Reference
  pub image : Option Reference
  pub addresses : Option (List (Option String × Option (List AddressEntry)))
  pub metadata : Option (Dict String)
  pub ext_power_state : Option String
  pub vm_state : Option String

pub record VmDetail : Type 0 where
  pub id : String
  pub name : String
  pub status : String
  pub flavor_id : Option String
  pub image_id : Option String
  pub addresses : Dict (List String)
  pub metadata : Dict String
  pub created : Option String
  pub updated : Option String
  pub key_name : Option String
  pub availability_zone : Option String
  pub power_state : Option String
  pub progress : Option ℕ

unfoldable pub extract_reference_id : Option Reference → Option String
extract_reference_id none = none
extract_reference_id (some (mapping rid)) = rid
extract_reference_id (some (object rid)) = rid

unfoldable pub extract_ips : List AddressEntry → List String
extract_ips [] = []
extract_ips (not_a_mapping ∷ entries) = extract_ips entries
extract_ips (address none ∷ entries) = extract_ips entries
extract_ips (address (some ip) ∷ entries) = ip ∷ extract_ips entries

extract_from :
    List (Option String × Option (List AddressEntry)) → Dict (List String) → Dict (List String)
extract_from [] result = result
extract_from ((none, entries) ∷ rest) result = extract_from rest result
extract_from ((some net, none) ∷ rest) result = extract_from rest result
extract_from ((some net, some entries) ∷ rest) result =
    extract_from rest (insert net (extract_ips entries) result)

unfoldable pub extract_addresses :
    Option (List (Option String × Option (List AddressEntry))) → Dict (List String)
unfolding extract_from extract_ips
extract_addresses none = []
extract_addresses (some value) = extract_from value []

-- str(x) if x else None
truthy_text : Option String → Option String
truthy_text none = none
truthy_text (some s) = if str_eq s "" then none else some s

unfoldable pub power_state_of : Server → Option String
unfolding truthy_text
power_state_of server = elim server.ext_power_state [
  | none ↦ truthy_text server.vm_state
  | some p ↦ some p
]

unfoldable pub or_empty_dict : Option (Dict String) → Dict String
or_empty_dict none = []
or_empty_dict (some d) = d

-- VMDetail(**data, …): pydantic refuses None for id, name and status
detail_of : Server → Option String → Option String → Option String → Result Exception VmDetail
detail_of server (some id) (some name) (some status) = ok (record {
  id = id;
  name = name;
  status = status;
  flavor_id = extract_reference_id server.flavor;
  image_id = extract_reference_id server.image;
  addresses = extract_addresses server.addresses;
  metadata = or_empty_dict server.metadata;
  created = server.created;
  updated = server.updated;
  key_name = server.key_name;
  availability_zone = server.availability_zone;
  power_state = power_state_of server;
  progress = server.progress;
})
detail_of server _ _ _ = raise validation_error

unfoldable pub serialize_vm : Server → Result Exception VmDetail
unfolding detail_of
serialize_vm server = detail_of server server.id server.name server.status

unfoldable pub serialize_all : List Server → Result Exception (List VmDetail)
serialize_all [] = ok []
serialize_all (s ∷ servers) = elim (serialize_vm s) [
  | raise e ↦ raise e
  | ok d ↦ elim (serialize_all servers) [ raise e ↦ raise e | ok ds ↦ ok (d ∷ ds) ]
]

-- `_get_id`
unfoldable pub get_id : Server → Result Exception String
get_id server = elim server.id [
  | none ↦ raise (app "Server object has no id attribute" 502 "openstack_error")
  | some sid ↦
      if str_eq sid ""
      then raise (app "Server object has no id attribute" 502 "openstack_error")
      else ok sid
]
