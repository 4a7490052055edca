-- ===== src/Openstack/Calls.antt =====
-- app/services/openstack/compute_service.py: the calls of OpenStack's SDK that ComputeService makes.
use v_machine.Prelude.{ℕ, String, Bool, Option}
use v_machine.Prelude.Dict.{Dict}
use v_machine.Openstack.Server.{Server}
use v_machine.Openstack.Client.{Api, Listing, Sdk, World, Action}

-- The keyword arguments of create_server; `networks` is [{"uuid": network}].
pub record CreateKwargs : Type 0 where
  pub name : String
  pub image_id : String
  pub flavor_id : String
  pub network : String
  pub metadata : Dict String
  pub key_name : Option String
  pub availability_zone : Option String

-- an attachment: an object with an attribute `volume_id`
pub record Attachment : Type 0 where
  pub id : String
  pub volume_id : String

-- A call with its arguments; `delete_server` has ignore_missing=True, `reboot_server` no type.
pub data ComputeCall : Type 0 where
  servers : ℕ → ComputeCall
  get_server get_image get_flavor get_network get_keypair get_volume : String → ComputeCall
  create_server : CreateKwargs → ComputeCall
  wait_for_server start_server stop_server reboot_server : Server → ComputeCall
  confirm_server_resize revert_server_resize volume_attachments : Server → ComputeCall
  delete_server : String → ComputeCall
  resize_server create_server_image create_volume_attachment : Server → String → ComputeCall
  delete_volume_attachment : Attachment → Server → ComputeCall

abbrev service_of : ComputeCall → String
service_of (get_image id) = "image"
service_of (get_network id) = "network"
service_of (get_volume id) = "block_storage"
service_of _ = "compute"

abbrev operation_of : ComputeCall → String
operation_of (servers limit) = "servers"
operation_of (get_server id) = "get_server"
operation_of (get_image id) = "get_image"
operation_of (get_flavor id) = "get_flavor"
operation_of (get_network id) = "get_network"
operation_of (get_keypair name) = "get_keypair"
operation_of (get_volume id) = "get_volume"
operation_of (create_server kwargs) = "create_server"
operation_of (wait_for_server server) = "wait_for_server"
operation_of (start_server server) = "start_server"
operation_of (stop_server server) = "stop_server"
operation_of (reboot_server server) = "reboot_server"
operation_of (confirm_server_resize server) = "confirm_server_resize"
operation_of (revert_server_resize server) = "revert_server_resize"
operation_of (volume_attachments server) = "volume_attachments"
operation_of (delete_server id) = "delete_server"
operation_of (resize_server server flavor) = "resize_server"
operation_of (create_server_image server name) = "create_server_image"
operation_of (create_volume_attachment server volume) = "create_volume_attachment"
operation_of (delete_volume_attachment attachment server) = "delete_volume_attachment"

-- What a call returns. Of an image, a flavor, a network, a keypair and a volume, the services read
-- the id alone. `false` is what delete_server returns for a server that is missing.
abbrev pub Reply : ComputeCall → Type 0
Reply (servers limit) = Listing Server
Reply (get_server id) = Option Server
Reply (get_image id) = Option String
Reply (get_flavor id) = Option String
Reply (get_network id) = Option String
Reply (get_keypair name) = Option String
Reply (get_volume id) = Option String
Reply (create_server kwargs) = Server
Reply (wait_for_server server) = Server
Reply (volume_attachments server) = Listing Attachment
Reply (delete_server id) = Bool
Reply (create_server_image server name) = String
Reply _ = Unit {0}

abbrev pub compute_api : Api
compute_api = record {
  Call = ComputeCall;
  service_of = service_of;
  operation_of = operation_of;
  Reply = Reply;
}

abbrev pub ComputeSdk : Type 0
ComputeSdk = Sdk compute_api

abbrev pub ComputeWorld : Type 0 → Type 0
ComputeWorld S = World compute_api S

abbrev pub ComputeAction : Type 0 → Type 0 → Type 0
ComputeAction S A = Action compute_api S A
