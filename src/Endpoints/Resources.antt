-- ===== src/Endpoints/Resources.antt =====
-- app/api/v1/endpoints/openstack/volumes.py, images.py, flavors.py and keypairs.py, and
-- app/api/v1/endpoints/identity/tenants.py: the requests that change something.
use v_machine.Prelude.{ℕ, String, some, List}
use v_machine.Prelude.Exec.{ok}
use v_machine.Cache.Backend.{Backend}
use v_machine.Database.{Database}
use v_machine.Openstack.Server.{Exception}
use v_machine.Openstack.Client.{Sdk, World}
use v_machine.Openstack.Volumes.{
  volume_api, VolumeItem, VolumeSummary, VolumeCreateRequest, make_volume, remove_volume,
}
use v_machine.Openstack.Images.{
  image_api, ImageItem, ImageSummary, ImageCreateRequest, remove_image,
}
use v_machine.Openstack.Images as Images
use v_machine.Openstack.Flavors.{flavor_api, FlavorSummary, FlavorCreateRequest, remove_flavor}
use v_machine.Openstack.Flavors as Flavors
use v_machine.Openstack.Keypairs.{keypair_api, KeypairSummary, KeypairCreateRequest, remove_keypair}
use v_machine.Openstack.Keypairs as Keypairs
use v_machine.Openstack.Projects.{
  project_api, ProjectSummary, ProjectCreateRequest, make_project, remove_project,
}
use v_machine.Orchestration.Tasks.{OperationTask}
use v_machine.Endpoints.Tracking.{
  Response, Endpoint, same_target, no_content, with_task, on_target, creation, tracked,
}

module _ (db : Database OperationTask) (others : Exception → String) where
  module _ (sdk : Sdk volume_api) (cache : Backend (List VolumeItem)) (list_limit : ℕ) where
    unfoldable pub create_volume :
        VolumeCreateRequest → Endpoint db (World volume_api cache.State) VolumeSummary
    create_volume payload =
        tracked db others (λ w. w.clock)
          (creation "create_volume" "volume" payload.name (make_volume sdk cache list_limit payload)
            (λ response. ok response.id)
            (λ response task_id. record response { operation_task_id = some task_id }))

    unfoldable pub delete_volume : String → Endpoint db (World volume_api cache.State) Response
    delete_volume volume_id =
        tracked db others (λ w. w.clock)
          (on_target "delete_volume" "volume" volume_id
            (remove_volume sdk cache list_limit volume_id) no_content)

  module _ (sdk : Sdk image_api) (cache : Backend (List ImageItem)) (list_limit : ℕ) where
    unfoldable pub create_image :
        ImageCreateRequest → Endpoint db (World image_api cache.State) ImageSummary
    create_image payload =
        tracked db others (λ w. w.clock)
          (creation "create_image" "image" payload.name
            (Images.create_image sdk cache list_limit payload) (λ image. ok image.id)
            (λ image task_id. record image { operation_task_id = some task_id }))

    unfoldable pub delete_image : String → Endpoint db (World image_api cache.State) Response
    delete_image image_id =
        tracked db others (λ w. w.clock)
          (on_target "delete_image" "image" image_id (remove_image sdk cache list_limit image_id)
            no_content)

  module _ {S : Type 0} (sdk : Sdk flavor_api) (list_limit : ℕ) where
    unfoldable pub create_flavor :
        FlavorCreateRequest → Endpoint db (World flavor_api S) FlavorSummary
    create_flavor payload =
        tracked db others (λ w. w.clock)
          (creation "create_flavor" "flavor" payload.name
            (Flavors.create_flavor sdk list_limit payload) (λ flavor. ok flavor.id)
            (λ flavor task_id. record flavor { operation_task_id = some task_id }))

    unfoldable pub delete_flavor : String → Endpoint db (World flavor_api S) Response
    delete_flavor flavor_id =
        tracked db others (λ w. w.clock)
          (on_target "delete_flavor" "flavor" flavor_id (remove_flavor sdk list_limit flavor_id)
            no_content)

  module _ {S : Type 0} (sdk : Sdk keypair_api) where
    unfoldable pub create_keypair :
        KeypairCreateRequest → Endpoint db (World keypair_api S) (KeypairSummary × String)
    create_keypair payload =
        tracked db others (λ w. w.clock)
          (creation "create_keypair" "keypair" payload.name (Keypairs.create_keypair sdk payload)
            (same_target (some payload.name)) with_task)

    unfoldable pub delete_keypair : String → Endpoint db (World keypair_api S) Response
    delete_keypair keypair_name =
        tracked db others (λ w. w.clock)
          (on_target "delete_keypair" "keypair" keypair_name (remove_keypair sdk keypair_name)
            no_content)

  module _ {S : Type 0} (sdk : Sdk project_api) where
    unfoldable pub create_project :
        ProjectCreateRequest → Endpoint db (World project_api S) ProjectSummary
    create_project payload =
        tracked db others (λ w. w.clock)
          (creation "create_project" "project" payload.name (make_project sdk payload)
            (λ project. ok project.id)
            (λ project task_id. record project { operation_task_id = some task_id }))

    unfoldable pub delete_project : String → Endpoint db (World project_api S) Response
    delete_project project_id =
        tracked db others (λ w. w.clock)
          (on_target "delete_project" "project" project_id (remove_project sdk project_id)
            no_content)
