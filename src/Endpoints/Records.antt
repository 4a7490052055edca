-- ===== src/Endpoints/Records.antt =====
-- app/api/v1/endpoints/orchestration/clusters.py, migrations.py and operations.py, and
-- app/api/v1/endpoints/openstack/storage.py: the requests that change records of the database. The
-- world is the table of those records; `now` is the clock.
use v_machine.Prelude.{ℕ, String, Bool, some, List, [], ◌∷◌}
use v_machine.Prelude.Exec.{ok}
use v_machine.Prelude.Text.{f_string}
use v_machine.Cache.Backend.{Backend}
use v_machine.Database.{Database}
use v_machine.Openstack.Server.{Exception}
use v_machine.Openstack.Calls.{ComputeSdk, ComputeWorld}
use v_machine.Openstack.Summary.{Item}
use v_machine.Openstack.Storage.{StoragePool, StoragePoolCreateRequest, StoragePoolSummary}
use v_machine.Openstack.Storage as Storage
use v_machine.Orchestration.Clusters.{
  ClusterDeployment, ClusterCreateRequest, ClusterSummary, BatchDeployRequest, BatchDeployResponse,
}
use v_machine.Orchestration.Clusters as Clusters
use v_machine.Orchestration.Migrations.{MigrationTask, MigrationCreateRequest, MigrationTaskSummary}
use v_machine.Orchestration.Migrations as Migrations
use v_machine.Orchestration.Operations.{
  AutoScalingPolicy, ScalingPolicyCreateRequest, ScalingPolicySummary, ScheduledTask,
  ScheduledTaskCreateRequest, ScheduledTaskSummary,
}
use v_machine.Orchestration.Operations as Operations
use v_machine.Orchestration.Tasks.{OperationTask}
use v_machine.Endpoints.Tracking.{Response, Endpoint, no_content, untargeted, creation, tracked}

module _ (db : Database OperationTask) (others : Exception → String) where
  module _ (clusters : Database ClusterDeployment) (now : clusters.State → ℕ) where
    unfoldable pub create_cluster : ClusterCreateRequest → Endpoint db clusters.State ClusterSummary
    create_cluster payload = tracked db others now (
        creation "create_cluster" "cluster" payload.name (Clusters.create_cluster clusters payload)
          (λ cluster. ok (some cluster.id))
          (λ cluster task_id. record cluster { operation_task_id = some task_id }))

    unfoldable pub delete_cluster : String → Endpoint db clusters.State Response
    delete_cluster cluster_id = tracked db others now (
        untargeted "delete_cluster" "cluster" cluster_id
          (Clusters.delete_cluster clusters cluster_id) no_content)

  unfoldable pub batch_deploy :
      (sdk : ComputeSdk) (cache : Backend (List Item))
      → ℕ
      → (clusters : Database ClusterDeployment) → Bool
      → String
      → BatchDeployRequest
      → Endpoint db (clusters.State × ComputeWorld cache.State) BatchDeployResponse
  batch_deploy sdk cache list_limit clusters has_compute cluster_id payload =
      tracked db others (λ st. st.1.clock)
        (untargeted "batch_deploy" "cluster" cluster_id
          (Clusters.batch_deploy sdk cache list_limit clusters has_compute cluster_id payload)
          (λ result task_id. record result { operation_task_id = some task_id }))

  module _ (migrations : Database MigrationTask) (now : migrations.State → ℕ) where
    unfoldable pub create_migration :
        MigrationCreateRequest → Endpoint db migrations.State MigrationTaskSummary
    create_migration payload = tracked db others now (
        creation (f_string (payload.migration_type ∷ "_migration" ∷ [])) "migration"
          payload.source_ref (Migrations.create_migration migrations payload)
          (λ migration. ok (some migration.id))
          (λ migration task_id. record migration { operation_task_id = some task_id }))

  module _ {Float : Type 0} (policies : Database (AutoScalingPolicy Float))
      (now : policies.State → ℕ) where
    unfoldable pub create_scaling_policy :
        ScalingPolicyCreateRequest Float → Endpoint db policies.State (ScalingPolicySummary Float)
    create_scaling_policy payload = tracked db others now (
        creation "create_scaling_policy" "scaling_policy" payload.name
          (Operations.create_scaling_policy policies payload) (λ policy. ok (some policy.id))
          (λ policy task_id. record policy { operation_task_id = some task_id }))

    unfoldable pub delete_scaling_policy : String → Endpoint db policies.State Response
    delete_scaling_policy policy_id = tracked db others now (
        untargeted "delete_scaling_policy" "scaling_policy" policy_id
          (Operations.delete_scaling_policy policies policy_id) no_content)

  module _ (scheduled : Database ScheduledTask) (now : scheduled.State → ℕ) where
    unfoldable pub create_scheduled_task :
        ScheduledTaskCreateRequest → Endpoint db scheduled.State ScheduledTaskSummary
    create_scheduled_task payload = tracked db others now (
        creation "create_scheduled_task" "scheduled_task" payload.name
          (Operations.create_scheduled_task scheduled payload) (λ st. ok (some st.id))
          (λ st task_id. record st { operation_task_id = some task_id }))

    unfoldable pub delete_scheduled_task : String → Endpoint db scheduled.State Response
    delete_scheduled_task task_id = tracked db others now (
        untargeted "delete_scheduled_task" "scheduled_task" task_id
          (Operations.delete_scheduled_task scheduled task_id) no_content)

  module _ (pools : Database StoragePool) (now : pools.State → ℕ) where
    unfoldable pub create_pool :
        StoragePoolCreateRequest → Endpoint db pools.State StoragePoolSummary
    create_pool payload = tracked db others now (
        creation "create_storage_pool" "storage_pool" payload.name
          (Storage.create_pool pools payload) (λ pool. ok (some pool.id))
          (λ pool task_id. record pool { operation_task_id = some task_id }))

    unfoldable pub delete_pool : String → Endpoint db pools.State Response
    delete_pool pool_id = tracked db others now (
        untargeted "delete_storage_pool" "storage_pool" pool_id (Storage.delete_pool pools pool_id)
          no_content)
