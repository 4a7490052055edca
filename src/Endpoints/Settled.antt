-- ===== src/Endpoints/Settled.antt =====
-- app/api/v1/endpoints/: how a request that runs as an operation task ends.
use mathlib.Core.Path.{subst}
use v_machine.Prelude.{ℕ, ◌≡◌, refl, sym, String, true, false, Option, none, some, ◌⊎◌, inl, inr}
use v_machine.Prelude.Exec.{Result, ok, raise, pure, throw, catch, ◌>>=◌}
use v_machine.Prelude.Ends.{Ends, weaken_Ends, Ends-raise, bind-Ends, catch-Ends}
use v_machine.Openstack.Server.{Exception}
use v_machine.Database.{Database, IsTable}
use v_machine.Orchestration.Tasks.{OperationTask, is_final, create_task, update_task}
use v_machine.Endpoints.Entry.{Unmoved, Entry, Uncreated, create_task_Ends, update_task_Ends}
use v_machine.Endpoints.Tracking.{
  Job, error_text, on_tasks, on_world, evaluated, move_task, attempted, give_up, tracked,
}

module _ (db : Database OperationTask) (table : IsTable db) (others : Exception → String)
    {W : Type 0} (now : W → ℕ) {A B : Type 0} (job : Job W A B) (s : db.State) (w : W) where
  -- the state of the tasks after `s`: one entry for this request
  abbrev At : String → String → Option String → db.State → Type 0
  At id state error t = Entry db table s job.operation_type id state error t

  -- The service has made its call, which returned: the task succeeded, and the response is made of what
  -- the call returned.
  pub record Done (response : B) (t : db.State) (v : W) : Type 0 where
    pub result : A
    pub returned : (job.work w).0 ≡ ok result
    pub target : Option String
    pub target_read : job.target_done result ≡ ok target
    pub world : v ≡ (job.work w).1
    pub task_id : String
    pub answer : response ≡ job.respond result task_id
    pub entry : At task_id "succeeded" none t

  -- the update to failed, after the exception `first`, has raised `exc`
  pub record UpdateRefused (task_id : String) (exc : Exception) : Type 0 where
    pub first : Exception
    pub before : db.State × W
    pub refused :
        (move_task db others now task_id "failed" job.target_failed
          (some (error_text others first))
          before).0
        ≡ raise exc

  -- The service has made its call, and the request raises: the task has failed with the text of the
  -- exception, or the update to failed has raised this exception, for an earlier one: then the task is
  -- running, or it has succeeded, or it has failed with the text of the earlier exception.
  pub record Stopped (exc : Exception) (t : db.State) (v : W) : Type 0 where
    pub world : v ≡ (job.work w).1
    pub task_id : String
    pub entry :
        At task_id "failed" (some (error_text others exc)) t
        ⊎ ((refusal : UpdateRefused task_id exc) × ((At task_id "running" none t
                ⊎ At task_id "succeeded" none t)
              ⊎ At task_id "failed" (some (error_text others refusal.first)) t))

  -- The service was not called: no task was created, or it is left as it was created, or it is running.
  abbrev pub Refused : db.State → W → Type 0
  Refused t v =
      (v ≡ w)
      × (Unmoved db table s t ⊎ ((id : String) × (At id "queued" none t ⊎ At id "running" none t)))

  abbrev pub Raised : Exception → db.State → W → Type 0
  Raised exc t v = Refused t v ⊎ Stopped exc t v

  abbrev State : Type 0
  State = db.State × W

  -- a step on the tasks leaves the world alone
  aside :
      {X : Type 0} (Q : X → db.State → Type 0) (R : Exception → db.State → Type 0) (v v' : W)
      → v ≡ v'
      → (r : Result Exception X) (t : db.State) → Ends Q R r t
      → Ends {S = State} (λ x st. (st.1 ≡ v') × Q x st.0) (λ e st. (st.1 ≡ v') × R e st.0) r (t, v)
  aside Q R v v' same (ok x) t h = (same, h)
  aside Q R v v' same (raise e) t h = (same, h)

  moved :
      (id old new : String) (target_id error : Option String)
      → (is_final old ≡ false) ⊎ (is_final new ≡ true)
      → (st : State) (v : W) → st.1 ≡ v
      → At id old none st.0
      → let out = move_task db others now id new target_id error st in
        Ends
          (λ x st'. (st'.1 ≡ v) × At id new error st'.0)
          (λ e st'. (st'.1 ≡ v) × (At id old none st'.0 ⊎ At id new error st'.0))
          out.0
          out.1
  unfolding move_task on_tasks
  moved id old new target_id error ends st v same h =
      let m = update_task db id new target_id error (now st.1) in
      let out = (m >>= λ x. pure {E = Exception} tt) st.0 in
      let left : Exception → db.State → Type 0 = λ e t'. At id old none t' ⊎ At id new error t' in
      aside (λ x t'. At id new error t') left st.1 v same out.0 out.1
        (bind-Ends (λ x t'. At id new error t') (λ x t'. At id new error t') left m (λ x. pure tt)
          st.0
          (update_task_Ends db table s job.operation_type id old new target_id error (now st.1) ends
            st.0 h)
          (λ x t' q. q))

  -- after the call of the service
  abbrev Worked : String → A → State → Type 0
  Worked id a st = ((job.work w).0 ≡ ok a) × ((st.1 ≡ (job.work w).1) × At id "running" none st.0)

  abbrev Running : String → State → Type 0
  Running id st = (st.1 ≡ (job.work w).1) × At id "running" none st.0

  -- where the update to succeeded has raised, it may be stored
  abbrev Open : String → State → Type 0
  Open id st = (st.1 ≡ (job.work w).1) × (At id "running" none st.0 ⊎ At id "succeeded" none st.0)

  worked :
      (id : String) (r : Result Exception A) (t : db.State)
      → (job.work w).0 ≡ r
      → At id "running" none t
      → Ends (Worked id) (λ e. Running id) r (t, (job.work w).1)
  worked id (ok a) t e h = (e, (refl, h))
  worked id (raise x) t e h = (refl, h)

  -- and after the target is read
  abbrev Read : String → A → Option String → State → Type 0
  Read id a o st = (job.target_done a ≡ ok o) × Worked id a st

  evaluated_Ends :
      (id : String) (a : A) (r : Result Exception (Option String)) (st : State)
      → job.target_done a ≡ r
      → Worked id a st
      → Ends (Read id a) (λ e. Running id) r st
  evaluated_Ends id a (ok o) st e h = (e, h)
  evaluated_Ends id a (raise x) st e h = h.1

  opened :
      {X : Type 0} (id : String) (Q : X → State → Type 0) (r : Result Exception X) (st : State)
      → Ends Q (λ e. Running id) r st
      → Ends Q (λ e. Open id) r st
  opened id Q r st h =
      weaken_Ends Q (λ e. Running id) (λ e. Open id) r st (λ e t q. (q.0, inl q.1)) h

  -- the body of the try, from the world that the request began with
  attempted_Ends :
      (id : String) (t : db.State)
      → At id "running" none t
      → let out = attempted db others now job id (t, w) in
        Ends (λ b st. Done b st.0 st.1) (λ e. Open id) out.0 out.1
  unfolding attempted on_world evaluated
  attempted_Ends id t h =
      bind-Ends (Worked id) (λ b st. Done b st.0 st.1) (λ e. Open id)
        (on_world db others now job.work) _ (t, w)
        (opened id (Worked id) (job.work w).0 (t, (job.work w).1)
          (worked id (job.work w).0 t refl h))
        (λ a st hw.
          bind-Ends (Read id a) (λ b st. Done b st.0 st.1) (λ e. Open id)
            (evaluated db others now (job.target_done a)) _ st
            (opened id (Read id a) (job.target_done a) st
              (evaluated_Ends id a (job.target_done a) st refl hw))
            (λ o st' hw'.
              bind-Ends (λ x st''. (st''.1 ≡ (job.work w).1) × At id "succeeded" none st''.0)
                (λ b st. Done b st.0 st.1) (λ e. Open id)
                (move_task db others now id "succeeded" o none) (λ x. pure (job.respond a id)) st'
                (moved id "running" "succeeded" o none (inl refl) st' (job.work w).1 hw'.1.1.0
                  hw'.1.1.1)
                (λ x st'' q. record {
                  result = a;
                  returned = hw'.1.0;
                  target = o;
                  target_read = hw'.0;
                  world = q.0;
                  task_id = id;
                  answer = refl;
                  entry = q.1;
                })))

  -- the handler, in a state that the body may leave
  give_up_from :
      (old id : String) (e : Exception) (st : State)
      → ((t : db.State) → At id old none t → At id "running" none t ⊎ At id "succeeded" none t)
      → st.1 ≡ (job.work w).1
      → At id old none st.0
      → let out = give_up db others now job id e st in
        Ends {A = B} (λ b st'. Done b st'.0 st'.1) (λ x st'. Raised x st'.0 st'.1) out.0 out.1
  unfolding give_up
  give_up_from old id e st kinds world h =
      let text = some (error_text others e) in
      let m = move_task db others now id "failed" job.target_failed text in
      let Failed =
        λ (x : Unit {0}) (st' : State). (st'.1 ≡ (job.work w).1) × At id "failed" text st'.0 in
      let Left = λ (x : Exception) (st' : State).
        (st'.1 ≡ (job.work w).1) × (At id old none st'.0 ⊎ At id "failed" text st'.0) in
      bind-Ends Failed (λ b st'. Done b st'.0 st'.1) (λ x st'. Raised x st'.0 st'.1) m
        (λ x. throw e) st
        (weaken_Ends Failed (λ x st'. ((m st).0 ≡ raise x) × Left x st')
          (λ x st'. Raised x st'.0 st'.1) (m st).0 (m st).1
          (λ x st' hr. inr (record {
            world = hr.1.0;
            task_id = id;
            entry = inr (
              record { first = e; before = st; refused = hr.0 },
              elim hr.1.1 [ inl k ↦ inl (kinds st'.0 k) | inr k ↦ inr k ],
            );
          }))
          (Ends-raise Failed Left (m st).0 (m st).1
            (moved id old "failed" job.target_failed text (inr refl) st (job.work w).1 world h)))
        (λ x st' hf. inr (record { world = hf.0; task_id = id; entry = inl hf.1 }))

  give_up_Ends :
      (id : String) (e : Exception) (st : State)
      → Open id st
      → let out = give_up db others now job id e st in
        Ends {A = B} (λ b st'. Done b st'.0 st'.1) (λ x st'. Raised x st'.0 st'.1) out.0 out.1
  give_up_Ends id e st h = elim h.1 [
    | inl k ↦ give_up_from "running" id e st (λ t q. inl q) h.0 k
    | inr k ↦ give_up_from "succeeded" id e st (λ t q. inr q) h.0 k
  ]

  guarded_Ends :
      (id : String) (t : db.State) (v : W)
      → v ≡ w
      → At id "running" none t
      → let out = catch (attempted db others now job id) (give_up db others now job id) (t, v) in
        Ends (λ b st. Done b st.0 st.1) (λ x st. Raised x st.0 st.1) out.0 out.1
  guarded_Ends id t v same h =
      catch-Ends (λ e. Open id) (λ b st. Done b st.0 st.1) (λ x st. Raised x st.0 st.1)
        (attempted db others now job id) (give_up db others now job id) (t, v)
        (subst
          (λ u.
            let out = attempted db others now job id (t, u) in
            Ends (λ b st. Done b st.0 st.1) (λ e. Open id) out.0 out.1)
          (sym same) (attempted_Ends id t h))
        (λ e st hr. give_up_Ends id e st hr)

  created :
      let out =
        on_tasks db others now
          (create_task db job.operation_type job.target_type (some job.target_id))
          (s, w) in
      Ends
        (λ x st. (st.1 ≡ w) × At x.id "queued" none st.0)
        (λ e st. Raised e st.0 st.1)
        out.0
        out.1
  unfolding on_tasks
  created =
      let m = create_task db job.operation_type job.target_type (some job.target_id) s in
      weaken_Ends {S = State} (λ x st. (st.1 ≡ w) × At x.id "queued" none st.0)
        (λ e st. (st.1 ≡ w) × Uncreated db table s job.operation_type st.0)
        (λ e st. Raised e st.0 st.1) m.0 (m.1, w)
        (λ e st h. inl (h.0, elim h.1 [ inl same ↦ inl same | inr new ↦ inr (new.0, inl new.1) ]))
        (aside (λ x t. At x.id "queued" none t) (λ e. Uncreated db table s job.operation_type) w w
          refl m.0 m.1
          (create_task_Ends db table s job.operation_type job.target_type (some job.target_id)))

  -- A request ends in one of these ways. It returns: the service was called, its call returned, the
  -- response is made of what it returned, and a new task of this type has succeeded. It raises, and the
  -- service was not called: no task is created, or one that is queued or running. It raises after the
  -- call, with the world as the call left it: a new task has failed with the text of the exception, or
  -- the update to failed raised this exception for an earlier one, and the task is running, has
  -- succeeded, or has failed with the text of the earlier one. Every other task is as it was, and the
  -- task has the time of its end exactly if its state is final.
  pub tracked-Settles :
      let out = tracked db others now job (s, w) in
      Ends (λ b st. Done b st.0 st.1) (λ x st. Raised x st.0 st.1) out.0 out.1
  unfolding tracked
  tracked-Settles =
      bind-Ends (λ x st. (st.1 ≡ w) × At x.id "queued" none st.0) (λ b st. Done b st.0 st.1)
        (λ x st. Raised x st.0 st.1)
        (on_tasks db others now
          (create_task db job.operation_type job.target_type (some job.target_id)))
        _ (s, w) created
        (λ x st h.
          bind-Ends (λ y st'. (st'.1 ≡ w) × At x.id "running" none st'.0) (λ b st. Done b st.0 st.1)
            (λ e st. Raised e st.0 st.1) (move_task db others now x.id "running" none none) _ st
            (weaken_Ends (λ y st'. (st'.1 ≡ w) × At x.id "running" none st'.0)
              (λ e st'. (st'.1 ≡ w) × (At x.id "queued" none st'.0 ⊎ At x.id "running" none st'.0))
              (λ e st'. Raised e st'.0 st'.1)
              (move_task db others now x.id "running" none none st).0
              (move_task db others now x.id "running" none none st).1
              (λ e st' hq. inl (hq.0, inr (x.id, hq.1)))
              (moved x.id "queued" "running" none none (inl refl) st w h.0 h.1))
            (λ y st' hr. guarded_Ends x.id st'.0 st'.1 hr.0 hr.1))
