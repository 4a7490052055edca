-- ===== src/Openstack/Compute/Samples.antt =====
-- A cloud in which every call succeeds, for the tests of the services that call OpenStack.
use v_machine.Prelude.{String, true, none, some, List, [], ◌∷◌}
use v_machine.Prelude.Exec.{Result, ok}
use v_machine.Cache.Memory.{MemoryCacheBackend, init}
use v_machine.Openstack.Server.{Server}
use v_machine.Openstack.Calls.{
  ComputeCall, servers, get_server, get_image, get_flavor, get_network, get_keypair, get_volume,
  create_server, wait_for_server, start_server, stop_server, reboot_server, confirm_server_resize,
  revert_server_resize, volume_attachments, delete_server, resize_server, create_server_image,
  create_volume_attachment, delete_volume_attachment, Reply, ComputeSdk, ComputeWorld,
}
use v_machine.Openstack.Summary.{Item, ServerCreateRequest}

abbrev pub web : Server
web = record {
  id = some "s1";
  name = some "web";
  status = some "ACTIVE";
  created = none;
  updated = none;
  key_name = none;
  project_id = none;
  availability_zone = none;
  progress = none;
  flavor = none;
  image = none;
  addresses = none;
  metadata = none;
  ext_power_state = none;
  vm_state = none;
}

abbrev pub answers : (c : ComputeCall) → Result (String × String) (Reply c)
answers (servers limit) = ok (web ∷ [], none)
answers (get_server id) = ok (some web)
answers (get_image id) = ok (some id)
answers (get_flavor id) = ok (some id)
answers (get_network id) = ok (some id)
answers (get_keypair name) = ok (some name)
answers (get_volume id) = ok (some id)
answers (create_server kwargs) = ok web
answers (wait_for_server server) = ok web
answers (start_server server) = ok tt
answers (stop_server server) = ok tt
answers (reboot_server server) = ok tt
answers (confirm_server_resize server) = ok tt
answers (revert_server_resize server) = ok tt
answers (volume_attachments server) = ok (record { id = "a1"; volume_id = "v1" } ∷ [], none)
answers (delete_server id) = ok true
answers (resize_server server flavor) = ok tt
answers (create_server_image server name) = ok "image-1"
answers (create_volume_attachment server volume) = ok tt
answers (delete_volume_attachment attachment server) = ok tt

abbrev pub cloud : ComputeSdk
cloud = record {
  ready = true;
  constructed = λ calls. none;
  has_service = λ service. true;
  has_operation = λ service operation. true;
  outcome = λ calls c. answers c;
  duration = λ calls c. 100;
}

abbrev pub world : ComputeWorld (MemoryCacheBackend (List Item))
world = record {
  clock = 1000;
  connected = true;
  calls = [];
  errors = [];
  durations = [];
  cache = init (record { hits = []; misses = []; invalidations = [] }) (("servers", 5) ∷ []);
}

abbrev pub request : ServerCreateRequest
request = record {
  name = "web";
  image_id = "i1";
  flavor_id = "f1";
  network_id = "n1";
  key_name = some "key";
  availability_zone = none;
  metadata = [];
  wait = true;
}
