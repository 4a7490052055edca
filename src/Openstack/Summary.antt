-- ===== src/Openstack/Summary.antt =====
-- app/schemas/openstack/compute.py, and the serialisers of
-- app/services/openstack/compute_service.py.
use v_machine.Prelude.{String, Bool, Option, none, some, List, str_eq, if◌then◌else◌}
use v_machine.Prelude.Dict.{Dict}
use v_machine.Openstack.Server.{Server, extract_reference_id, extract_addresses, or_empty_dict}
use v_machine.Openstack.Calls.{CreateKwargs}

pub record ServerSummary : Type 0 where
  pub id : Option String
  pub name : Option String
  pub status : Option String
  pub operation_task_id : Option String
  pub flavor_id : Option String
  pub image_id : Option String
  pub created : Option String
  pub key_name : Option String
  pub project_id : Option String
  pub availability_zone : Option String
  pub addresses : Dict (List String)

pub record ServerDetail : Type 0 where
  pub summary : ServerSummary
  pub updated : Option String
  pub metadata : Dict String

pub record ServerCreateRequest : Type 0 where
  pub name : String
  pub image_id : String
  pub flavor_id : String
  pub network_id : String
  pub key_name : Option String
  pub availability_zone : Option String
  pub metadata : Dict String
  pub wait : Bool

pub record ServerActionResponse : Type 0 where
  pub server_id : String
  pub action : String
  pub accepted : Bool
  pub operation_task_id : Option String

-- A cached server: the model, or the dict that json makes of it.
pub data Item : Type 0 where
  model : ServerSummary → Item
  mapping : ServerSummary → Item

-- _serialize_server_summary
abbrev pub serialize_server_summary : Server → ServerSummary
serialize_server_summary server = record {
  id = server.id;
  name = server.name;
  status = server.status;
  operation_task_id = none;
  flavor_id = extract_reference_id server.flavor;
  image_id = extract_reference_id server.image;
  created = server.created;
  key_name = server.key_name;
  project_id = server.project_id;
  availability_zone = server.availability_zone;
  addresses = extract_addresses server.addresses;
}

abbrev pub serialize_server_detail : Server → ServerDetail
serialize_server_detail server = record {
  summary = serialize_server_summary server;
  updated = server.updated;
  metadata = or_empty_dict server.metadata;
}

-- `x if x else absent`, for a text
abbrev pub unless_empty : Option String → Option String
unless_empty none = none
unless_empty (some s) = if str_eq s "" then none else some s

abbrev pub create_kwargs : ServerCreateRequest → CreateKwargs
create_kwargs payload = record {
  name = payload.name;
  image_id = payload.image_id;
  flavor_id = payload.flavor_id;
  network = payload.network_id;
  metadata = payload.metadata;
  key_name = unless_empty payload.key_name;
  availability_zone = unless_empty payload.availability_zone;
}
