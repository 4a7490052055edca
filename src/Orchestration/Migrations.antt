-- ===== src/Orchestration/Migrations.antt =====
-- app/services/orchestration/migration_service.py, MigrationService, with
-- app/models/migration_task.py and the schemas of app/schemas/orchestration/deployment.py. Times are
-- numbers and are not printed; the column `extra` is never used.
use v_machine.Prelude.{
  ℕ, String, Bool, false, Option, none, some, List, ◌++◌, map, str_eq, if◌then◌else◌,
}
use v_machine.Prelude.Exec.{Exec, pure, ◌>>=◌}
use v_machine.Openstack.Server.{Exception}
use v_machine.Database.{Database, Query, not_found, found, where_equal}
use v_machine.Orchestration.Tasks.{is_final}

pub record MigrationTask : Type 0 where
  pub id : String
  pub migration_type : String
  pub source_ref : String
  pub destination_ref : Option String
  pub resource_type : String
  pub resource_id : Option String
  pub status : String
  pub progress : ℕ
  pub error_message : Option String
  pub created_at : ℕ
  pub finished_at : Option ℕ

pub record MigrationCreateRequest : Type 0 where
  pub migration_type : String
  pub source_ref : String
  pub destination_ref : Option String
  pub resource_type : String
  pub resource_id : Option String

pub record MigrationTaskSummary : Type 0 where
  pub id : String
  pub migration_type : String
  pub source_ref : String
  pub destination_ref : Option String
  pub resource_type : String
  pub resource_id : Option String
  pub status : String
  pub progress : ℕ
  pub error_message : Option String
  pub created_at : Option ℕ
  pub finished_at : Option ℕ
  pub operation_task_id : Option String

abbrev pub serialize_migration : MigrationTask → MigrationTaskSummary
serialize_migration task = record {
  id = task.id;
  migration_type = task.migration_type;
  source_ref = task.source_ref;
  destination_ref = task.destination_ref;
  resource_type = task.resource_type;
  resource_id = task.resource_id;
  status = task.status;
  progress = task.progress;
  error_message = task.error_message;
  created_at = some task.created_at;
  finished_at = task.finished_at;
  operation_task_id = none;
}

-- MigrationTask(…), with the columns that have defaults
abbrev pub queued_migration : MigrationCreateRequest → String → ℕ → MigrationTask
queued_migration payload id created_at = record {
  id = id;
  migration_type = payload.migration_type;
  source_ref = payload.source_ref;
  destination_ref = payload.destination_ref;
  resource_type = payload.resource_type;
  resource_id = payload.resource_id;
  status = "queued";
  progress = 0;
  error_message = none;
  created_at = created_at;
  finished_at = none;
}

-- `if status: task.status = status`
unfoldable pub new_status : Option String → String → String
new_status none old = old
new_status (some status) old = if str_eq status "" then old else status

unfoldable pub finishes : Option String → Bool
finishes none = false
finishes (some status) = is_final status

-- the assignments of update_migration_progress
unfoldable pub progressed : ℕ → Option String → ℕ → MigrationTask → MigrationTask
progressed progress status now task = record task {
  progress = progress;
  status = new_status status task.status;
  finished_at = if finishes status then some now else task.finished_at;
}

abbrev pub migration_not_found : Exception
migration_not_found = not_found "Migration task not found" "migration_not_found"

module _ (db : Database MigrationTask) where
  abbrev pub MigrationAction : Type 0 → Type 0
  MigrationAction A = Exec Exception db.State A

  abbrev pub migration_query : Option String → Option String → ℕ → Query MigrationTask
  migration_query status migration_type limit = record {
    wheres =
        where_equal (λ r. r.status) status ++ where_equal (λ r. r.migration_type) migration_type;
    order_by = λ r. r.created_at;
    limit = some limit;
  }

  unfoldable pub list_migrations :
      Option String → Option String → ℕ → MigrationAction (List MigrationTaskSummary)
  list_migrations status migration_type limit = do
    tasks ← db.select (migration_query status migration_type limit)
    pure (map serialize_migration tasks)

  unfoldable pub get_migration : String → MigrationAction MigrationTaskSummary
  get_migration migration_id = do
    task ← found db migration_not_found migration_id
    pure (serialize_migration task)

  unfoldable pub create_migration : MigrationCreateRequest → MigrationAction MigrationTaskSummary
  create_migration payload = do
    task ← db.add (queued_migration payload)
    pure (serialize_migration task)

  -- `now` is the time that a final status is reached
  unfoldable pub update_migration_progress :
      String → ℕ → Option String → ℕ → MigrationAction MigrationTaskSummary
  update_migration_progress migration_id progress status now = do
    task ← found db migration_not_found migration_id
    task ← db.save migration_id (progressed progress status now task)
    pure (serialize_migration task)
