-- ===== src/Endpoints/Tracking.antt =====
-- app/api/v1/endpoints/: the steps that the endpoints share. A task is created and set to running; the
-- call of the service is made; the task is set to succeeded, or to failed and the exception raised
-- again. The service works on a world `W` of its own.
use v_machine.Prelude.{ℕ, String, Option, none, some}
use v_machine.Prelude.Exec.{Result, ok, Exec, pure, throw, catch, ◌>>=◌, ◌>>◌}
use v_machine.Openstack.Server.{Exception, app}
use v_machine.Database.{Database}
use v_machine.Orchestration.Tasks.{OperationTask, create_task, update_task}

-- Response(status_code=…) with its header X-Operation-Task-ID
pub record Response : Type 0 where
  pub status_code : ℕ
  pub operation_task_id : String

-- str(exc), where `others` has the text of an exception that is no AppException
unfoldable pub error_text : (Exception → String) → Exception → String
error_text others (app message status_code error_code) = message
error_text others e = others e

-- What differs between the endpoints: the arguments of create_task, the call of the service, the
-- `target_id` of the two updates that end the task, and the response.
pub record Job (W A B : Type 0) : Type 0 where
  pub operation_type : String
  pub target_type : String
  pub target_id : String
  pub work : Exec Exception W A
  pub target_done : A → Result Exception (Option String)
  pub target_failed : Option String
  pub respond : A → String → B

-- `target_id=…` after a call of the service that returns `a`
abbrev pub same_target : {A : Type 0} → Option String → A → Result Exception (Option String)
same_target target a = ok target

abbrev pub no_content : {A : Type 0} → A → String → Response
no_content a task_id = record { status_code = 204; operation_task_id = task_id }

abbrev pub accepted : {A : Type 0} → A → String → Response
accepted a task_id = record { status_code = 202; operation_task_id = task_id }

-- response.model_copy(update={"operation_task_id": task.id}) of a model without that field
abbrev pub with_task : {A : Type 0} → A → String → A × String
with_task a task_id = (a, task_id)

-- a request on one target, whose id both updates of the task repeat
abbrev pub on_target :
    {W A B : Type 0} → String → String → String → Exec Exception W A → (A → String → B) → Job W A B
on_target operation_type target_type target_id work respond = record {
  operation_type = operation_type;
  target_type = target_type;
  target_id = target_id;
  work = work;
  target_done = same_target (some target_id);
  target_failed = some target_id;
  respond = respond;
}

-- a request whose updates name no target
abbrev pub untargeted :
    {W A B : Type 0} → String → String → String → Exec Exception W A → (A → String → B) → Job W A B
untargeted operation_type target_type target_id work respond = record {
  operation_type = operation_type;
  target_type = target_type;
  target_id = target_id;
  work = work;
  target_done = same_target none;
  target_failed = none;
  respond = respond;
}

-- a creation: the task is named for what is created, and the last update for the id of it
abbrev pub creation :
    {W A B : Type 0}
    → String
    → String
    → String
    → Exec Exception W A
    → (A → Result Exception (Option String))
    → (A → String → B)
    → Job W A B
creation operation_type target_type name work target_done respond = record {
  operation_type = operation_type;
  target_type = target_type;
  target_id = name;
  work = work;
  target_done = target_done;
  target_failed = none;
  respond = respond;
}

-- a request: on the table of tasks, and on the world of the service
abbrev pub Endpoint : Database OperationTask → Type 0 → Type 0 → Type 0
Endpoint db W A = Exec Exception (db.State × W) A

-- `others` is the text of an exception, `now` the clock
module _ (db : Database OperationTask) (others : Exception → String) {W : Type 0}
    (now : W → ℕ) where
  unfoldable pub on_tasks : {A : Type 0} → Exec Exception db.State A → Endpoint db W A
  on_tasks m (s, w) = let (r, s') = m s in (r, (s', w))

  unfoldable pub on_world : {A : Type 0} → Exec Exception W A → Endpoint db W A
  on_world m (s, w) = let (r, w') = m w in (r, (s, w'))

  unfoldable pub evaluated : {A : Type 0} → Result Exception A → Endpoint db W A
  evaluated r t = (r, t)

  -- operation_task_service.update_task(task.id, …), at the time that it is
  unfoldable pub move_task :
      String → String → Option String → Option String → Endpoint db W (Unit {0})
  move_task task_id state target_id error_message (s, w) =
      on_tasks (update_task db task_id state target_id error_message (now w) >>= λ x. pure tt)
        (s, w)

  module _ {A B : Type 0} (job : Job W A B) where
    -- the body of the try
    unfoldable pub attempted : String → Endpoint db W B
    attempted task_id = do
      a ← on_world job.work
      target_id ← evaluated (job.target_done a)
      move_task task_id "succeeded" target_id none
      pure (job.respond a task_id)

    -- the handler
    unfoldable pub give_up : String → Exception → Endpoint db W B
    give_up task_id exc = do
      move_task task_id "failed" job.target_failed (some (error_text others exc))
      throw exc

    unfoldable pub tracked : Endpoint db W B
    tracked = do
      task ← on_tasks (create_task db job.operation_type job.target_type (some job.target_id))
      move_task task.id "running" none none
      catch (attempted task.id) (give_up task.id)
