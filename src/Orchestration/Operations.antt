-- ===== src/Orchestration/Operations.antt =====
-- app/services/orchestration/operations_service.py, OperationsService: scaling policies and scheduled
-- tasks, with their models and the schemas of app/schemas/orchestration/operations_automation.py.
-- Times are numbers and are not printed; a threshold is a number that nothing is computed of; the
-- column `extra` is never used.
use v_machine.Prelude.{ℕ, String, Bool, true, Option, none, some, List, [], map}
use v_machine.Prelude.Exec.{Exec, pure, ◌>>=◌}
use v_machine.Openstack.Server.{Exception}
use v_machine.Database.{Database, Query, not_found, found, delete_found}

pub record AutoScalingPolicy (Float : Type 0) : Type 0 where
  pub id : String
  pub name : String
  pub description : Option String
  pub metric_name : String
  pub threshold : Float
  pub comparison : String
  pub min_replicas : ℕ
  pub max_replicas : ℕ
  pub cooldown_seconds : ℕ
  pub target_resource_type : String
  pub target_resource_id : Option String
  pub enabled : Bool
  pub created_at : ℕ
  pub updated_at : ℕ

pub record ScalingPolicyCreateRequest (Float : Type 0) : Type 0 where
  pub name : String
  pub description : Option String
  pub metric_name : String
  pub threshold : Float
  pub comparison : String
  pub min_replicas : ℕ
  pub max_replicas : ℕ
  pub cooldown_seconds : ℕ
  pub target_resource_type : String
  pub target_resource_id : Option String

pub record ScalingPolicySummary (Float : Type 0) : Type 0 where
  pub id : String
  pub name : String
  pub metric_name : String
  pub threshold : Float
  pub comparison : String
  pub min_replicas : ℕ
  pub max_replicas : ℕ
  pub cooldown_seconds : ℕ
  pub target_resource_type : String
  pub enabled : Bool
  pub created_at : Option ℕ
  pub operation_task_id : Option String

pub record ScheduledTask : Type 0 where
  pub id : String
  pub name : String
  pub description : Option String
  pub task_type : String
  pub cron_expression : String
  pub target_action : String
  pub target_resource_type : Option String
  pub target_resource_id : Option String
  pub enabled : Bool
  pub last_run_at : Option ℕ
  pub created_at : ℕ

pub record ScheduledTaskCreateRequest : Type 0 where
  pub name : String
  pub description : Option String
  pub task_type : String
  pub cron_expression : String
  pub target_action : String
  pub target_resource_type : Option String
  pub target_resource_id : Option String

pub record ScheduledTaskSummary : Type 0 where
  pub id : String
  pub name : String
  pub task_type : String
  pub cron_expression : String
  pub target_action : String
  pub enabled : Bool
  pub last_run_at : Option ℕ
  pub created_at : Option ℕ
  pub operation_task_id : Option String

-- every row, the newest first
abbrev pub everything : {Row : Type 0} → (Row → ℕ) → Query Row
everything created_at = record { wheres = []; order_by = created_at; limit = none }

abbrev pub policy_not_found : Exception
policy_not_found = not_found "Scaling policy not found" "scaling_policy_not_found"

module _ {Float : Type 0} where
  abbrev pub serialize_policy : AutoScalingPolicy Float → ScalingPolicySummary Float
  serialize_policy p = record {
    id = p.id;
    name = p.name;
    metric_name = p.metric_name;
    threshold = p.threshold;
    comparison = p.comparison;
    min_replicas = p.min_replicas;
    max_replicas = p.max_replicas;
    cooldown_seconds = p.cooldown_seconds;
    target_resource_type = p.target_resource_type;
    enabled = p.enabled;
    created_at = some p.created_at;
    operation_task_id = none;
  }

  -- AutoScalingPolicy(…), with the columns that have defaults
  abbrev pub new_policy : ScalingPolicyCreateRequest Float → String → ℕ → AutoScalingPolicy Float
  new_policy payload id now = record {
    id = id;
    name = payload.name;
    description = payload.description;
    metric_name = payload.metric_name;
    threshold = payload.threshold;
    comparison = payload.comparison;
    min_replicas = payload.min_replicas;
    max_replicas = payload.max_replicas;
    cooldown_seconds = payload.cooldown_seconds;
    target_resource_type = payload.target_resource_type;
    target_resource_id = payload.target_resource_id;
    enabled = true;
    created_at = now;
    updated_at = now;
  }

  module _ (db : Database (AutoScalingPolicy Float)) where
    unfoldable pub list_scaling_policies :
        Exec Exception db.State (List (ScalingPolicySummary Float))
    list_scaling_policies = do
      policies ← db.select (everything (λ p. p.created_at))
      pure (map serialize_policy policies)

    unfoldable pub get_scaling_policy :
        String → Exec Exception db.State (ScalingPolicySummary Float)
    get_scaling_policy policy_id = do
      policy ← found db policy_not_found policy_id
      pure (serialize_policy policy)

    unfoldable pub create_scaling_policy :
        ScalingPolicyCreateRequest Float → Exec Exception db.State (ScalingPolicySummary Float)
    create_scaling_policy payload = do
      policy ← db.add (new_policy payload)
      pure (serialize_policy policy)

    unfoldable pub delete_scaling_policy : String → Exec Exception db.State (Unit {0})
    delete_scaling_policy policy_id = delete_found db policy_not_found policy_id

abbrev pub serialize_scheduled : ScheduledTask → ScheduledTaskSummary
serialize_scheduled t = record {
  id = t.id;
  name = t.name;
  task_type = t.task_type;
  cron_expression = t.cron_expression;
  target_action = t.target_action;
  enabled = t.enabled;
  last_run_at = t.last_run_at;
  created_at = some t.created_at;
  operation_task_id = none;
}

-- ScheduledTask(…), with the columns that have defaults
abbrev pub new_scheduled : ScheduledTaskCreateRequest → String → ℕ → ScheduledTask
new_scheduled payload id now = record {
  id = id;
  name = payload.name;
  description = payload.description;
  task_type = payload.task_type;
  cron_expression = payload.cron_expression;
  target_action = payload.target_action;
  target_resource_type = payload.target_resource_type;
  target_resource_id = payload.target_resource_id;
  enabled = true;
  last_run_at = none;
  created_at = now;
}

abbrev pub scheduled_not_found : Exception
scheduled_not_found = not_found "Scheduled task not found" "scheduled_task_not_found"

module _ (db : Database ScheduledTask) where
  unfoldable pub list_scheduled_tasks : Exec Exception db.State (List ScheduledTaskSummary)
  list_scheduled_tasks = do
    tasks ← db.select (everything (λ t. t.created_at))
    pure (map serialize_scheduled tasks)

  unfoldable pub get_scheduled_task : String → Exec Exception db.State ScheduledTaskSummary
  get_scheduled_task task_id = do
    task ← found db scheduled_not_found task_id
    pure (serialize_scheduled task)

  unfoldable pub create_scheduled_task :
      ScheduledTaskCreateRequest → Exec Exception db.State ScheduledTaskSummary
  create_scheduled_task payload = do
    task ← db.add (new_scheduled payload)
    pure (serialize_scheduled task)

  unfoldable pub delete_scheduled_task : String → Exec Exception db.State (Unit {0})
  delete_scheduled_task task_id = delete_found db scheduled_not_found task_id
