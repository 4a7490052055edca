-- ===== src/Orchestration/Clusters.antt =====
-- app/services/orchestration/cluster_service.py, ClusterService, with
-- app/models/cluster_deployment.py and the schemas of app/schemas/orchestration/deployment.py. Times
-- are numbers and are not printed.
pub mod Batches
use v_machine.Prelude.{
  ℕ, zero, suc, ◌+◌, String, Bool, true, false, Option, none, some, List, [], ◌∷◌, map, str_eq,
  if◌then◌else◌,
}
use v_machine.Prelude.Exec.{Result, ok, raise, Exec, pure, throw, ◌>>=◌, ◌>>◌}
use v_machine.Prelude.Text.{f_string, decimal}
use v_machine.Prelude.Dict.{Dict}
use v_machine.Openstack.Server.{Exception, app, sdk_error}
use v_machine.Database.{Database, Query, not_found, found, delete_found}
use v_machine.Cache.Backend.{Backend}
use v_machine.Openstack.Calls.{ComputeSdk, ComputeWorld, ComputeAction}
use v_machine.Openstack.Summary.{ServerCreateRequest, Item}
use v_machine.Openstack.Compute.{create_server}
use v_machine.Orchestration.Operations.{everything}

pub record ClusterDeployment : Type 0 where
  pub id : String
  pub name : String
  pub description : Option String
  pub cluster_type : String
  pub status : String
  pub node_count : ℕ
  pub extra_config : Option (Dict String)
  pub created_at : ℕ
  pub updated_at : ℕ

pub record ClusterCreateRequest : Type 0 where
  pub name : String
  pub description : Option String
  pub cluster_type : String
  pub node_count : ℕ
  pub metadata : Dict String

pub record ClusterSummary : Type 0 where
  pub id : String
  pub name : String
  pub description : Option String
  pub cluster_type : String
  pub status : String
  pub node_count : ℕ
  pub created_at : Option ℕ
  pub operation_task_id : Option String

pub record BatchDeployRequest : Type 0 where
  pub template_name : String
  pub instance_count : ℕ
  pub image_id : String
  pub flavor_id : String
  pub network_id : String
  pub key_name : Option String
  pub availability_zone : Option String

pub record BatchDeployResponse : Type 0 where
  pub template_name : String
  pub requested : ℕ
  pub created : ℕ
  pub operation_task_id : Option String

abbrev pub serialize_cluster : ClusterDeployment → ClusterSummary
serialize_cluster cluster = record {
  id = cluster.id;
  name = cluster.name;
  description = cluster.description;
  cluster_type = cluster.cluster_type;
  status = cluster.status;
  node_count = cluster.node_count;
  created_at = some cluster.created_at;
  operation_task_id = none;
}

-- ClusterDeployment(…), with the columns that have defaults
abbrev pub new_cluster : ClusterCreateRequest → String → ℕ → ClusterDeployment
new_cluster payload id now = record {
  id = id;
  name = payload.name;
  description = payload.description;
  cluster_type = payload.cluster_type;
  status = "active";
  node_count = payload.node_count;
  extra_config = some payload.metadata;
  created_at = now;
  updated_at = now;
}

abbrev pub cluster_not_found : Exception
cluster_not_found = not_found "Cluster not found" "cluster_not_found"

-- select(ClusterDeployment).where(ClusterDeployment.name == name), without an order
abbrev pub named : String → Query ClusterDeployment
named name = record { wheres = (λ c. str_eq c.name name) ∷ []; order_by = λ c. 0; limit = none }

-- scalar_one_or_none: SQLAlchemy raises where there is more than one
unfoldable pub scalar_one_or_none :
    {S : Type 0} → List ClusterDeployment → Exec Exception S (Option ClusterDeployment)
scalar_one_or_none [] = pure none
scalar_one_or_none (c ∷ []) = pure (some c)
scalar_one_or_none (c ∷ d ∷ rest) = throw (sdk_error "MultipleResultsFound")

-- the name of the server, and what create_server is given
abbrev pub server_name : BatchDeployRequest → ℕ → String
server_name payload i = f_string (payload.template_name ∷ "-" ∷ decimal (i + 1) ∷ [])

abbrev pub server_request : String → BatchDeployRequest → ℕ → ServerCreateRequest
server_request cluster_id payload i = record {
  name = server_name payload i;
  image_id = payload.image_id;
  flavor_id = payload.flavor_id;
  network_id = payload.network_id;
  key_name = payload.key_name;
  availability_zone = payload.availability_zone;
  metadata = ("cluster_id", cluster_id) ∷ ("template", payload.template_name) ∷ [];
  wait = false;
}

module _ (db : Database ClusterDeployment) where
  unfoldable pub list_clusters : Exec Exception db.State (List ClusterSummary)
  list_clusters = do
    clusters ← db.select (everything (λ c. c.created_at))
    pure (map serialize_cluster clusters)

  unfoldable pub get_cluster : String → Exec Exception db.State ClusterSummary
  get_cluster cluster_id = do
    cluster ← found db cluster_not_found cluster_id
    pure (serialize_cluster cluster)

  unfoldable pub create_cluster : ClusterCreateRequest → Exec Exception db.State ClusterSummary
  create_cluster payload = do
    rows ← db.select (named payload.name)
    existing ← scalar_one_or_none rows
    elim existing [
      | some c ↦ throw (
          app (f_string ("Cluster '" ∷ payload.name ∷ "' already exists" ∷ [])) 409
            "cluster_already_exists")
      | none ↦ do cluster ← db.add (new_cluster payload); pure (serialize_cluster cluster)
    ]

  unfoldable pub delete_cluster : String → Exec Exception db.State (Unit {0})
  delete_cluster cluster_id = delete_found db cluster_not_found cluster_id

module _ (sdk : ComputeSdk) (cache : Backend (List Item)) (list_limit : ℕ) where
  -- the servers i, i + 1, … i + n - 1, until one fails: how many were created, and the world then
  unfoldable pub deploy_from :
      String → BatchDeployRequest → ℕ → ℕ → ComputeWorld cache.State → ℕ × ComputeWorld cache.State
  deploy_from cluster_id payload i zero w = (0, w)
  deploy_from cluster_id payload i (suc n) w =
      let (r, w') = create_server sdk cache list_limit (server_request cluster_id payload i) w in
      let rest = deploy_from cluster_id payload (i + 1) n w' in
      elim r [ raise e ↦ (0, w') | ok server ↦ (rest.0 + 1, rest.1) ]

  -- Without a compute service, the loop does nothing.
  unfoldable pub deploy_servers :
      Bool → String → BatchDeployRequest → ComputeWorld cache.State → ℕ × ComputeWorld cache.State
  deploy_servers false cluster_id payload w = (0, w)
  deploy_servers true cluster_id payload w =
      deploy_from cluster_id payload 0 payload.instance_count w

  unfoldable pub batch_deploy :
      (db : Database ClusterDeployment)
      → Bool
      → String
      → BatchDeployRequest
      → Exec Exception (db.State × ComputeWorld cache.State) BatchDeployResponse
  batch_deploy db has_compute cluster_id payload (s, w) =
      let (r, s') = found db cluster_not_found cluster_id s in
      elim r [
        | raise e ↦ (raise e, (s', w))
        | ok cluster ↦
            let (created, w') = deploy_servers has_compute cluster_id payload w in
            (
              ok (record {
                template_name = payload.template_name;
                requested = payload.instance_count;
                created = created;
                operation_task_id = none;
              }),
              (s', w'),
            )
      ]
