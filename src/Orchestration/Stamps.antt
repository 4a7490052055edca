-- ===== src/Orchestration/Stamps.antt =====
-- app/services/core/operation_task_service.py and app/services/orchestration/migration_service.py:
-- what is final has a time of finishing.
use v_machine.Prelude.{
  ℕ, ◌≡◌, refl, String, true, Option, none, some, All, arith, is_some, str_eq, Bool-cases, inl, inr,
}
use v_machine.Database.{Database, IsTable}
use v_machine.Database.Tables.{Keeps, create_keeps, update_keeps, read_keeps, list_keeps}
use v_machine.Orchestration.Tasks.{
  OperationTask, OperationTaskSummary, serialize_task, queued_task, is_final, updated_task,
  task_not_found, create_task, update_task, get_task, list_tasks,
}
use v_machine.Orchestration.Migrations.{
  MigrationTask, MigrationTaskSummary, MigrationCreateRequest, serialize_migration,
  queued_migration, new_status, finishes, progressed, migration_not_found, create_migration,
  update_migration_progress, get_migration, list_migrations,
}

-- a state, and the time of finishing that goes with it
abbrev pub IsStamped : String → Option ℕ → Type 0
IsStamped state finished_at = is_final state ≡ true → is_some finished_at ≡ true

abbrev pub TaskStamped : OperationTask → Type 0
TaskStamped task = IsStamped task.state task.finished_at

abbrev pub MigrationStamped : MigrationTask → Type 0
MigrationStamped task = IsStamped task.status task.finished_at

abbrev pub SummaryStamped : OperationTaskSummary → Type 0
SummaryStamped task = IsStamped task.state task.finished_at

abbrev pub MigrationSummaryStamped : MigrationTaskSummary → Type 0
MigrationSummaryStamped task = IsStamped task.status task.finished_at

updated_task-Stamped :
    (state : String) (target_id error_message : Option String) (now : ℕ) (task : OperationTask)
    → TaskStamped (updated_task state target_id error_message now task)
unfolding updated_task
updated_task-Stamped state target_id error_message now task final = rw final refl

-- The old time stays where no final status is given.
progressed-Stamped :
    (progress : ℕ) (status : Option String) (now : ℕ) (task : MigrationTask)
    → MigrationStamped task
    → MigrationStamped (progressed progress status now task)
unfolding progressed new_status finishes
progressed-Stamped progress none now task h = h
progressed-Stamped progress (some status) now task h = elim (Bool-cases (is_final status)) [
  | inl e ↦ λ final. rw e refl
  | inr e ↦ elim (Bool-cases (str_eq status "")) [
    | inl y ↦ rw (e, y) h
    | inr n ↦ rw n (λ final. absurd (ground (arith, e, final)))
  ]
]

-- Every method of the operation tasks and of the migrations keeps, in the database and in what it
-- returns, that what has succeeded or failed has a time of finishing, whatever the database refuses.
pub methods-Stamped :
    (db : Database OperationTask) (table : IsTable db) (migrations : Database MigrationTask)
    (migration_table : IsTable migrations) (operation_type target_type id state : String)
    (target_id error_message : Option String) (payload : MigrationCreateRequest)
    (status : Option String) (progress now limit : ℕ)
    → (Keeps db TaskStamped table
          (create_task db operation_type target_type target_id)
          SummaryStamped
        × Keeps db TaskStamped table
            (update_task db id state target_id error_message now)
            SummaryStamped
        × Keeps db TaskStamped table (get_task db id) SummaryStamped
        × Keeps db TaskStamped table (list_tasks db limit status target_id) (All SummaryStamped))
      × (Keeps migrations MigrationStamped migration_table
            (create_migration migrations payload)
            MigrationSummaryStamped
          × Keeps migrations MigrationStamped migration_table
              (update_migration_progress migrations id progress status now)
              MigrationSummaryStamped
          × Keeps migrations MigrationStamped migration_table
              (get_migration migrations id)
              MigrationSummaryStamped
          × Keeps migrations MigrationStamped migration_table
              (list_migrations migrations status target_id limit)
              (All MigrationSummaryStamped))
unfolding create_task update_task get_task list_tasks create_migration update_migration_progress
    get_migration list_migrations
methods-Stamped db table migrations migration_table operation_type target_type id state target_id
      error_message payload status progress now limit =
    (
      (
        create_keeps db TaskStamped table serialize_task SummaryStamped (λ t h. h)
            (queued_task operation_type target_type target_id)
            (λ i t final. absurd (ground (arith, final))),
        update_keeps db TaskStamped table serialize_task SummaryStamped (λ t h. h) task_not_found id
            (updated_task state target_id error_message now)
            (λ task h. updated_task-Stamped state target_id error_message now task),
        read_keeps db TaskStamped table serialize_task SummaryStamped (λ t h. h) task_not_found id,
        list_keeps db TaskStamped table serialize_task SummaryStamped (λ t h. h) _,
      ),
      (
        create_keeps migrations MigrationStamped migration_table serialize_migration
            MigrationSummaryStamped (λ t h. h) (queued_migration payload)
            (λ i t final. absurd (ground (arith, final))),
        update_keeps migrations MigrationStamped migration_table serialize_migration
            MigrationSummaryStamped (λ t h. h) migration_not_found id
            (progressed progress status now) (progressed-Stamped progress status now),
        read_keeps migrations MigrationStamped migration_table serialize_migration
            MigrationSummaryStamped (λ t h. h) migration_not_found id,
        list_keeps migrations MigrationStamped migration_table serialize_migration
            MigrationSummaryStamped (λ t h. h) _,
      ),
    )
