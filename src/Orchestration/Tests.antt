-- ===== src/Orchestration/Tests.antt =====
-- The services of the database on concrete inputs, with a table of one row.
use v_machine.Prelude.{◌≡◌, true, none, some, All}
use v_machine.Prelude.Hoare.{Ended}
use v_machine.Cache.Memory.{backend}
use v_machine.Openstack.Compute.Samples.{cloud, world}
use v_machine.Database.Single.{single, single-IsTable}
use v_machine.Database.Tables.{Keeps}
use v_machine.Orchestration.Tasks.{
  OperationTask, create_task, update_task, updated_task, get_task, list_tasks,
}
use v_machine.Orchestration.Migrations.{
  MigrationTask, MigrationCreateRequest, create_migration, update_migration_progress, get_migration,
  list_migrations,
}
use v_machine.Orchestration.Stamps.{
  TaskStamped, MigrationStamped, SummaryStamped, MigrationSummaryStamped, methods-Stamped,
}
use v_machine.Orchestration.Readback.{ReadsBack, MayCreate, MayUpdate, write-get}
use v_machine.Orchestration.Clusters.{ClusterDeployment, BatchDeployRequest, batch_deploy}
use v_machine.Orchestration.Clusters.Batches.{Numbered, batch_deploy-Numbered}

abbrev migration : MigrationCreateRequest
migration = record {
  migration_type = "cold";
  source_ref = "vm-1";
  destination_ref = none;
  resource_type = "server";
  resource_id = none;
}

abbrev task : OperationTask
task = record {
  id = "1";
  operation_type = "create";
  target_type = "server";
  target_id = none;
  state = "running";
  error_message = none;
  submitted_at = 5;
  finished_at = none;
}

abbrev batch : BatchDeployRequest
batch = record {
  template_name = "node";
  instance_count = 3;
  image_id = "i1";
  flavor_id = "f1";
  network_id = "n1";
  key_name = none;
  availability_zone = none;
}

abbrev cluster : ClusterDeployment
cluster = record {
  id = "1";
  name = "c";
  description = none;
  cluster_type = "compute";
  status = "active";
  node_count = 0;
  extra_config = none;
  created_at = 5;
  updated_at = 5;
}

methods-Stamped_example :
    let tasks = single OperationTask in
    let migrations = single MigrationTask in
    let t = single-IsTable OperationTask in
    let m = single-IsTable MigrationTask in
    (Keeps tasks TaskStamped t (create_task tasks "create" "server" none) SummaryStamped
      × Keeps tasks TaskStamped t (update_task tasks "1" "succeeded" none none 9) SummaryStamped
      × Keeps tasks TaskStamped t (get_task tasks "1") SummaryStamped
      × Keeps tasks TaskStamped t (list_tasks tasks 50 (some "queued") none) (All SummaryStamped))
    × (Keeps migrations MigrationStamped m
          (create_migration migrations migration)
          MigrationSummaryStamped
        × Keeps migrations MigrationStamped m
            (update_migration_progress migrations "1" 100 (some "queued") 9)
            MigrationSummaryStamped
        × Keeps migrations MigrationStamped m (get_migration migrations "1") MigrationSummaryStamped
        × Keeps migrations MigrationStamped m
            (list_migrations migrations (some "queued") none 50)
            (All MigrationSummaryStamped))
methods-Stamped_example =
    methods-Stamped (single OperationTask) (single-IsTable OperationTask) (single MigrationTask)
      (single-IsTable MigrationTask) "create" "server" "1" "succeeded" none none migration
      (some "queued") 100 9 50

write-get_example :
    let db = single OperationTask in
    let table = single-IsTable OperationTask in
    let created = create_task db "create" "server" none (some ("1", task)) in
    let updated = update_task db "1" "failed" none (some "quota") 9 (some ("1", task)) in
    Ended
      (λ x t. ReadsBack db table x.id x t × (x.state ≡ "queued" × x.finished_at ≡ none))
      (MayCreate db table "create" "server" none (some ("1", task)))
      created.0
      created.1
    × Ended
        (λ x t. ReadsBack db table "1" x t × (x.state ≡ "failed" × x.error_message ≡ some "quota"))
        (MayUpdate db table "1" (updated_task "failed" none (some "quota") 9) (some ("1", task)))
        updated.0
        updated.1
write-get_example =
    write-get (single OperationTask) (single-IsTable OperationTask) "create" "server" "1" "failed"
      none (some "quota") 9 (some ("1", task))

batch_deploy-Numbered_example :
    let db = single ClusterDeployment in
    let out = batch_deploy cloud backend 100 db true "1" batch (some ("1", cluster), world) in
    Ended
      (λ response t.
        Numbered cloud backend 100 batch 0 response.requested response.created world t.1)
      (λ t. t.1 ≡ world)
      out.0
      out.1
batch_deploy-Numbered_example =
    batch_deploy-Numbered cloud backend 100 "1" batch (single ClusterDeployment) true
      (some ("1", cluster)) world
