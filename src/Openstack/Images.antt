-- ===== src/Openstack/Images.antt =====
-- app/services/openstack/image_service.py, ImageService, with app/schemas/openstack/image.py.
use v_machine.Prelude.{ℕ, String, Bool, Option, none, List, map}
use v_machine.Prelude.Exec.{pure, throw, ◌>>=◌, ◌>>◌}
use v_machine.Cache.Backend.{Backend}
use v_machine.Openstack.Server.{sdk_error}
use v_machine.Openstack.Client.{Api, Listing, Sdk, Action, call, listed}
use v_machine.Openstack.Cached.{required, cached_or, cache_invalidate}

-- The attributes that are read of an image of the SDK, and kept.
pub record Image : Type 0 where
  pub id : Option String
  pub name : Option String
  pub status : Option String
  pub visibility : Option String

pub record ImageSummary : Type 0 where
  pub id : Option String
  pub name : Option String
  pub status : Option String
  pub visibility : Option String
  pub container_format : Option String
  pub disk_format : Option String
  pub operation_task_id : Option String

pub record ImageCreateRequest : Type 0 where
  pub name : String
  pub container_format : String
  pub disk_format : String
  pub min_disk : ℕ
  pub min_ram : ℕ
  pub visibility : String
  pub protected : Bool

-- A call: `upload_image` has the data, as a text of bytes, and backend="store"; `import_image` the
-- URI, and method="web-download"; `delete_image` ignore_missing=True.
pub data ImageCall : Type 0 where
  images : ℕ → ImageCall
  get_image delete_image : String → ImageCall
  upload_image import_image : String → String → ImageCall

abbrev operation_of : ImageCall → String
operation_of (images limit) = "images"
operation_of (get_image id) = "get_image"
operation_of (delete_image id) = "delete_image"
operation_of (upload_image id bytes) = "upload_image"
operation_of (import_image id uri) = "import_image"

abbrev Reply : ImageCall → Type 0
Reply (images limit) = Listing Image
Reply (get_image id) = Option Image
Reply _ = Unit {0}

abbrev pub image_api : Api
image_api = record {
  Call = ImageCall;
  service_of = λ c. "image";
  operation_of = operation_of;
  Reply = Reply;
}

-- A cached image: the model, or the dict that json makes of it.
pub data ImageItem : Type 0 where
  image_model : ImageSummary → ImageItem
  image_mapping : ImageSummary → ImageItem

-- ImageSummary has no fields for the size and the time of creation, and drops them.
abbrev pub image_summary : Image → ImageSummary
image_summary i = record {
  id = i.id;
  name = i.name;
  status = i.status;
  visibility = i.visibility;
  container_format = none;
  disk_format = none;
  operation_task_id = none;
}

module _ (sdk : Sdk image_api) (cache : Backend (List ImageItem)) (list_limit : ℕ) where
  abbrev pub ImageAction : Type 0 → Type 0
  ImageAction A = Action image_api cache.State A

  unfoldable pub list_images : ImageAction (List ImageItem)
  list_images = cached_or cache "images" (do
    listing ← call sdk (images list_limit)
    items ← listed listing
    pure (map (λ i. image_model (image_summary i)) items))

  unfoldable pub get_image_summary : String → ImageAction ImageSummary
  get_image_summary image_id = do
    image ← call sdk (get_image image_id)
    image ← required "Image not found" "image_not_found" image
    pure (image_summary image)

  -- The request has no attribute `tags`, which is read before anything is called.
  unfoldable pub create_image : ImageCreateRequest → ImageAction ImageSummary
  create_image payload = throw (sdk_error "AttributeError")

  unfoldable pub upload_image_data : String → String → ImageAction (Unit {0})
  upload_image_data image_id bytes = call sdk (upload_image image_id bytes)

  unfoldable pub import_image_from : String → String → ImageAction (Unit {0})
  import_image_from image_id uri = call sdk (import_image image_id uri)

  unfoldable pub remove_image : String → ImageAction (Unit {0})
  remove_image image_id = do call sdk (delete_image image_id); cache_invalidate cache "images"
