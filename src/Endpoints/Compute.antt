-- ===== src/Endpoints/Compute.antt =====
-- app/api/v1/endpoints/openstack/compute.py: the requests that change a server.
use v_machine.Prelude.{ℕ, String, Option, some, List, [], ◌∷◌, str_eq, if◌then◌else◌}
use v_machine.Prelude.Exec.{ok}
use v_machine.Prelude.Text.{f_string}
use v_machine.Cache.Backend.{Backend}
use v_machine.Database.{Database}
use v_machine.Openstack.Server.{Exception}
use v_machine.Openstack.Calls.{ComputeSdk, ComputeWorld}
use v_machine.Openstack.Summary.{ServerSummary, ServerCreateRequest, ServerActionResponse, Item}
use v_machine.Openstack.Compute as Service
use v_machine.Orchestration.Tasks.{OperationTask}
use v_machine.Endpoints.Tracking.{
  Response, Job, Endpoint, accepted, no_content, on_target, creation, tracked,
}

-- ServerImageCreateResponse
pub record ServerImageCreateResponse : Type 0 where
  pub server_id : String
  pub image_name : String
  pub image_id : String
  pub operation_task_id : Option String

-- the dict that resize_server_action returns
pub record ResizeActionResponse : Type 0 where
  pub status : String
  pub operation_task_id : String

module _ (db : Database OperationTask) (others : Exception → String) (sdk : ComputeSdk)
    (cache : Backend (List Item)) (list_limit : ℕ) where
  abbrev pub ServerEndpoint : Type 0 → Type 0
  ServerEndpoint A = Endpoint db (ComputeWorld cache.State) A

  abbrev pub server_creation :
      ServerCreateRequest → Job (ComputeWorld cache.State) ServerSummary ServerSummary
  server_creation payload =
      creation "create_server" "server" payload.name
        (Service.create_server sdk cache list_limit payload) (λ server. ok server.id)
        (λ server task_id. record server { operation_task_id = some task_id })

  unfoldable pub create_server : ServerCreateRequest → ServerEndpoint ServerSummary
  create_server payload = tracked db others (λ w. w.clock) (server_creation payload)

  unfoldable pub server_action : String → String → ServerEndpoint ServerActionResponse
  server_action server_id action =
      tracked db others (λ w. w.clock)
        (on_target (f_string (action ∷ "_server" ∷ [])) "server" server_id
          (Service.perform_action sdk cache list_limit server_id action)
          (λ response task_id. record response { operation_task_id = some task_id }))

  unfoldable pub delete_server : String → ServerEndpoint Response
  delete_server server_id =
      tracked db others (λ w. w.clock)
        (on_target "delete_server" "server" server_id
          (Service.delete_server sdk cache list_limit server_id) no_content)

  unfoldable pub attach_volume : String → String → ServerEndpoint Response
  attach_volume server_id volume_id =
      tracked db others (λ w. w.clock)
        (on_target "attach_volume" "server" server_id
          (Service.attach_volume sdk cache list_limit server_id volume_id) no_content)

  unfoldable pub detach_volume : String → String → ServerEndpoint Response
  detach_volume server_id volume_id =
      tracked db others (λ w. w.clock)
        (on_target "detach_volume" "server" server_id
          (Service.detach_volume sdk cache list_limit server_id volume_id) no_content)

  unfoldable pub resize_server : String → String → ServerEndpoint Response
  resize_server server_id flavor_id =
      tracked db others (λ w. w.clock)
        (on_target "resize_server" "server" server_id
          (Service.resize_server sdk cache list_limit server_id flavor_id) accepted)

  unfoldable pub resize_server_action : String → String → ServerEndpoint ResizeActionResponse
  resize_server_action server_id action =
      tracked db others (λ w. w.clock)
        (on_target (if str_eq action "confirm" then "confirm_resize" else "revert_resize") "server"
          server_id
          (if str_eq action "confirm"
            then Service.confirm_resize sdk cache list_limit server_id
            else Service.revert_resize sdk cache list_limit server_id)
          (λ done task_id. record { status = action; operation_task_id = task_id }))

  unfoldable pub create_server_snapshot : String → String → ServerEndpoint ServerImageCreateResponse
  create_server_snapshot server_id name =
      tracked db others (λ w. w.clock)
        (on_target "create_server_image" "server" server_id
          (Service.create_server_image sdk cache list_limit server_id name)
          (λ image_id task_id. record {
            server_id = server_id;
            image_name = name;
            image_id = image_id;
            operation_task_id = some task_id;
          }))
