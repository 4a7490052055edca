-- ===== src/Openstack/Compute.antt =====
-- app/services/openstack/compute_service.py, ComputeService. `cache` stands for cache_get, cache_set and cache_invalidate of
-- app/common/utils/openstack_cache.py. The caches `_image_cache` and `_flavor_cache` are never used.
pub mod Steps
pub mod Methods
pub mod Freshness
pub mod Samples
mod Tests
use v_machine.Prelude.{
  ℕ, String, Bool, true, false, Option, none, some, List, [], ◌∷◌, map, str_eq, if◌then◌else◌,
}
use v_machine.Prelude.Exec.{ok, raise, Exec, pure, throw, modify, ◌>>=◌, ◌>>◌}
use v_machine.Prelude.Dict.{Dict}
use v_machine.Cache.Backend.{Backend}
use v_machine.Openstack.Server.{
  Exception, app, Server, extract_reference_id, extract_addresses, or_empty_dict,
}
use v_machine.Openstack.Client.{Listing, call, listed}
use v_machine.Openstack.Calls.{
  CreateKwargs, Attachment, ComputeCall, servers, get_server, get_image, get_flavor, get_network,
  get_keypair, get_volume, wait_for_server, start_server, stop_server, reboot_server,
  confirm_server_resize, revert_server_resize, volume_attachments, create_volume_attachment,
  delete_volume_attachment, ComputeSdk, ComputeWorld, ComputeAction,
}
use v_machine.Openstack.Calls as Calls
use v_machine.Openstack.Cached.{required, deleted_or, cache_get, cache_set, cache_invalidate}
use v_machine.Openstack.Summary.{
  ServerSummary, ServerDetail, ServerCreateRequest, ServerActionResponse, Item, model,
  serialize_server_summary, serialize_server_detail, unless_empty, create_kwargs,
}

-- next((a for a in attachments if a.volume_id == volume_id), None)
unfoldable pub attachment_of : String → List Attachment → Option Attachment
attachment_of volume_id [] = none
attachment_of volume_id (a ∷ attachments) =
    if str_eq a.volume_id volume_id then some a else attachment_of volume_id attachments

-- the generator is left at the first match, before what it would raise at its end
unfoldable pub first_match :
    {S : Type 0} → String → Listing Attachment → ComputeAction S (Option Attachment)
first_match volume_id (items, failure) w = elim (attachment_of volume_id items) [
  | some a ↦ (ok (some a), w)
  | none ↦ elim failure [ none ↦ (ok none, w) | some e ↦ (raise e, w) ]
]

-- action_map.get(action)
abbrev pub sdk_action : String → Server → Option ComputeCall
sdk_action action server =
    if str_eq action "start"
    then some (start_server server)
    else if str_eq action "stop"
    then some (stop_server server)
    else if str_eq action "reboot"
    then some (reboot_server server)
    else none

module _ (sdk : ComputeSdk) (cache : Backend (List Item)) (list_limit : ℕ) where
  abbrev pub Service : Type 0 → Type 0
  Service A = ComputeAction cache.State A

  -- the listing that OpenStack answers, which is then stored
  unfoldable pub fetch_servers : Service (List Item)
  fetch_servers = do
    listing ← call sdk (servers list_limit)
    found ← listed listing
    cache_set cache "servers" (map (λ s. model (serialize_server_summary s)) found)
    pure (map (λ s. model (serialize_server_summary s)) found)

  unfoldable pub list_servers : Service (List Item)
  list_servers = do
    cached ← cache_get cache "servers"
    elim cached [ none ↦ fetch_servers | some items ↦ pure items ]

  -- the lookup of a server, and its guard
  unfoldable pub find_server : String → Service Server
  find_server server_id = do
    server ← call sdk (get_server server_id)
    required "Server not found" "server_not_found" server

  unfoldable pub get_server_detail : String → Service ServerDetail
  get_server_detail server_id = do
    server ← find_server server_id
    pure (serialize_server_detail server)

  unfoldable pub check_keypair : Option String → Service (Unit {0})
  check_keypair none = pure tt
  check_keypair (some key_name) = do
    keypair ← call sdk (get_keypair key_name)
    required "Key pair not found" "keypair_not_found" keypair
    pure tt

  unfoldable pub awaited : Bool → Server → Service Server
  awaited true server = call sdk (wait_for_server server)
  awaited false server = pure server

  unfoldable pub create_server : ServerCreateRequest → Service ServerSummary
  create_server payload = do
    image ← call sdk (get_image payload.image_id)
    required "Image not found" "image_not_found" image
    flavor ← call sdk (get_flavor payload.flavor_id)
    required "Flavor not found" "flavor_not_found" flavor
    network ← call sdk (get_network payload.network_id)
    required "Network not found" "network_not_found" network
    check_keypair (unless_empty payload.key_name)
    server ← call sdk (Calls.create_server (create_kwargs payload))
    server ← awaited payload.wait server
    cache_invalidate cache "servers"
    pure (serialize_server_summary server)

  unfoldable pub perform_action : String → String → Service ServerActionResponse
  perform_action server_id action = do
    server ← find_server server_id
    elim (sdk_action action server) [
      | none ↦ throw (app "Unsupported action" 400 "invalid_action")
      | some c ↦ do
        call sdk c
        pure (record {
          server_id = server_id;
          action = action;
          accepted = true;
          operation_task_id = none;
        })
    ]

  unfoldable pub delete_server : String → Service (Unit {0})
  delete_server server_id = do
    deleted ← call sdk (Calls.delete_server server_id)
    deleted_or "Server not found" "server_not_found" deleted
    cache_invalidate cache "servers"

  unfoldable pub resize_server : String → String → Service (Unit {0})
  resize_server server_id flavor_id = do
    server ← find_server server_id
    call sdk (Calls.resize_server server flavor_id)

  unfoldable pub confirm_resize : String → Service (Unit {0})
  confirm_resize server_id = do
    server ← find_server server_id
    call sdk (confirm_server_resize server)

  unfoldable pub revert_resize : String → Service (Unit {0})
  revert_resize server_id = do
    server ← find_server server_id
    call sdk (revert_server_resize server)

  unfoldable pub create_server_image : String → String → Service String
  create_server_image server_id name = do
    server ← find_server server_id
    call sdk (Calls.create_server_image server name)

  unfoldable pub attach_volume : String → String → Service (Unit {0})
  attach_volume server_id volume_id = do
    server ← find_server server_id
    volume ← call sdk (get_volume volume_id)
    volume ← required "Volume not found" "volume_not_found" volume
    call sdk (create_volume_attachment server volume)
    cache_invalidate cache "servers"
    cache_invalidate cache "volumes"

  unfoldable pub detach_volume : String → String → Service (Unit {0})
  detach_volume server_id volume_id = do
    server ← find_server server_id
    listing ← call sdk (volume_attachments server)
    attachment ← first_match volume_id listing
    attachment ← required "Volume attachment not found" "attachment_not_found" attachment
    call sdk (delete_volume_attachment attachment server)
    cache_invalidate cache "servers"
    cache_invalidate cache "volumes"
