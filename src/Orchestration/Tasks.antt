-- ===== src/Orchestration/Tasks.antt =====
-- app/services/core/operation_task_service.py, OperationTaskService, with app/models/operation_task.py
-- and app/schemas/core/operation_task.py. Times are numbers and are not printed.
use v_machine.Prelude.{
  ℕ, String, Bool, Option, none, some, List, ◌||◌, ◌++◌, map, str_eq, if◌then◌else◌,
}
use v_machine.Prelude.Exec.{Exec, pure, ◌>>=◌}
use v_machine.Openstack.Server.{Exception}
use v_machine.Database.{Database, Query, not_found, found, where_equal}

pub record OperationTask : Type 0 where
  pub id : String
  pub operation_type : String
  pub target_type : String
  pub target_id : Option String
  pub state : String
  pub error_message : Option String
  pub submitted_at : ℕ
  pub finished_at : Option ℕ

pub record OperationTaskSummary : Type 0 where
  pub id : String
  pub operation_type : String
  pub target_type : String
  pub target_id : Option String
  pub state : String
  pub error_message : Option String
  pub submitted_at : Option ℕ
  pub finished_at : Option ℕ

abbrev pub serialize_task : OperationTask → OperationTaskSummary
serialize_task task = record {
  id = task.id;
  operation_type = task.operation_type;
  target_type = task.target_type;
  target_id = task.target_id;
  state = task.state;
  error_message = task.error_message;
  submitted_at = some task.submitted_at;
  finished_at = task.finished_at;
}

-- OperationTask(…), with the columns that have defaults
abbrev pub queued_task : String → String → Option String → String → ℕ → OperationTask
queued_task operation_type target_type target_id id submitted_at = record {
  id = id;
  operation_type = operation_type;
  target_type = target_type;
  target_id = target_id;
  state = "queued";
  error_message = none;
  submitted_at = submitted_at;
  finished_at = none;
}

-- state in {"succeeded", "failed"}
abbrev pub is_final : String → Bool
is_final state = str_eq state "succeeded" || str_eq state "failed"

abbrev pub or_else : {A : Type 0} → Option A → Option A → Option A
or_else none old = old
or_else (some new) old = some new

-- the assignments of update_task
unfoldable pub updated_task :
    String → Option String → Option String → ℕ → OperationTask → OperationTask
updated_task state target_id error_message now task = record task {
  state = state;
  target_id = or_else target_id task.target_id;
  error_message = error_message;
  finished_at = if is_final state then some now else task.finished_at;
}

abbrev pub task_not_found : Exception
task_not_found = not_found "Operation task not found" "task_not_found"

module _ (db : Database OperationTask) where
  abbrev pub TaskAction : Type 0 → Type 0
  TaskAction A = Exec Exception db.State A

  unfoldable pub create_task : String → String → Option String → TaskAction OperationTaskSummary
  create_task operation_type target_type target_id = do
    task ← db.add (queued_task operation_type target_type target_id)
    pure (serialize_task task)

  -- `now` is the time that a final state is reached
  unfoldable pub update_task :
      String → String → Option String → Option String → ℕ → TaskAction OperationTaskSummary
  update_task task_id state target_id error_message now = do
    task ← found db task_not_found task_id
    task ← db.save task_id (updated_task state target_id error_message now task)
    pure (serialize_task task)

  unfoldable pub get_task : String → TaskAction OperationTaskSummary
  get_task task_id = do task ← found db task_not_found task_id; pure (serialize_task task)

  abbrev pub task_query : ℕ → Option String → Option String → Query OperationTask
  task_query limit state target_type = record {
    wheres = where_equal (λ r. r.state) state ++ where_equal (λ r. r.target_type) target_type;
    order_by = λ r. r.submitted_at;
    limit = some limit;
  }

  unfoldable pub list_tasks :
      ℕ → Option String → Option String → TaskAction (List OperationTaskSummary)
  list_tasks limit state target_type = do
    tasks ← db.select (task_query limit state target_type)
    pure (map serialize_task tasks)
