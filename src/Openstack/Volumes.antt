-- ===== src/Openstack/Volumes.antt =====
-- app/services/openstack/volume_service.py, VolumeService, with app/schemas/openstack/volume.py.
use v_machine.Prelude.{ℕ, String, Bool, Option, none, List, map}
use v_machine.Prelude.Exec.{pure, ◌>>=◌, ◌>>◌}
use v_machine.Cache.Backend.{Backend}
use v_machine.Openstack.Client.{Api, Listing, Sdk, Action, call, listed}
use v_machine.Openstack.Cached.{required, deleted_or, cached_or, cache_invalidate}
use v_machine.Openstack.Summary.{unless_empty}

-- The attributes that are read of a volume of the SDK.
pub record Volume : Type 0 where
  pub id : Option String
  pub name : Option String
  pub status : Option String
  pub size : Option ℕ
  pub bootable : Option String

pub record VolumeSummary : Type 0 where
  pub id : Option String
  pub name : Option String
  pub status : Option String
  pub size : Option ℕ
  pub bootable : Option String
  pub operation_task_id : Option String

pub record VolumeCreateRequest : Type 0 where
  pub name : String
  pub size : ℕ
  pub description : Option String
  pub image_id : Option String

-- A call; `delete_volume` has ignore_missing=True. The request's empty texts are left out.
pub data VolumeCall : Type 0 where
  volumes : ℕ → VolumeCall
  get_volume delete_volume : String → VolumeCall
  create_volume : VolumeCreateRequest → VolumeCall

abbrev operation_of : VolumeCall → String
operation_of (volumes limit) = "volumes"
operation_of (get_volume id) = "get_volume"
operation_of (delete_volume id) = "delete_volume"
operation_of (create_volume request) = "create_volume"

abbrev Reply : VolumeCall → Type 0
Reply (volumes limit) = Listing Volume
Reply (get_volume id) = Option Volume
Reply (delete_volume id) = Bool
Reply (create_volume request) = Volume

abbrev pub volume_api : Api
volume_api = record {
  Call = VolumeCall;
  service_of = λ c. "block_storage";
  operation_of = operation_of;
  Reply = Reply;
}

-- A cached volume: the model, or the dict that json makes of it.
pub data VolumeItem : Type 0 where
  volume_model : VolumeSummary → VolumeItem
  volume_mapping : VolumeSummary → VolumeItem

abbrev pub volume_summary : Volume → VolumeSummary
volume_summary v = record {
  id = v.id;
  name = v.name;
  status = v.status;
  size = v.size;
  bootable = v.bootable;
  operation_task_id = none;
}

-- the arguments of the call
abbrev pub volume_args : VolumeCreateRequest → VolumeCreateRequest
volume_args payload = record payload {
  description = unless_empty payload.description;
  image_id = unless_empty payload.image_id;
}

module _ (sdk : Sdk volume_api) (cache : Backend (List VolumeItem)) (list_limit : ℕ) where
  abbrev pub VolumeAction : Type 0 → Type 0
  VolumeAction A = Action volume_api cache.State A

  unfoldable pub list_volumes : VolumeAction (List VolumeItem)
  list_volumes = cached_or cache "volumes" (do
    listing ← call sdk (volumes list_limit)
    items ← listed listing
    pure (map (λ v. volume_model (volume_summary v)) items))

  unfoldable pub find_volume : String → VolumeAction VolumeSummary
  find_volume volume_id = do
    volume ← call sdk (get_volume volume_id)
    volume ← required "Volume not found" "volume_not_found" volume
    pure (volume_summary volume)

  unfoldable pub remove_volume : String → VolumeAction (Unit {0})
  remove_volume volume_id = do
    deleted ← call sdk (delete_volume volume_id)
    deleted_or "Volume not found" "volume_not_found" deleted
    cache_invalidate cache "volumes"

  unfoldable pub make_volume : VolumeCreateRequest → VolumeAction VolumeSummary
  make_volume payload = do
    volume ← call sdk (create_volume (volume_args payload))
    cache_invalidate cache "volumes"
    pure (volume_summary volume)
