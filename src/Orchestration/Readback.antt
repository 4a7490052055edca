-- ===== src/Orchestration/Readback.antt =====
-- app/services/core/operation_task_service.py: what is written of a task is read back.
use mathlib.Core.Path.{subst}
use v_machine.Prelude.{
  ℕ, ◌≡◌, refl, sym, ◌∙◌, ap, String, Option, none, some, eq_refl, ◌⊎◌, inl, inr,
}
use v_machine.Prelude.Exec.{pure, throw}
use v_machine.Prelude.Hoare.{Ended, Triple, bind-Triple, weaken}
use v_machine.Database.{Database, IsTable, Holds, Same, Written, found}
use v_machine.Orchestration.Tasks.{
  OperationTask, OperationTaskSummary, serialize_task, queued_task, updated_task, task_not_found,
  create_task, update_task, get_task,
}

module _ (db : Database OperationTask) (table : IsTable db) where
  -- the table holds the row
  abbrev Holding : String → OperationTask → db.State → Type 0
  Holding id task s = table.held id s ≡ some task

  abbrev pub Unchanged : db.State → db.State → Type 0
  Unchanged s s' = Same db table.held s s'

  pub found_lem :
      (id : String) (s : db.State)
      → Triple
          (λ t. Unchanged s t)
          (found db task_not_found id)
          (λ task t. table.held id s ≡ some task × Unchanged s t)
          (Unchanged s)
  unfolding found
  found_lem id s =
      bind-Triple (db.get id) _
        (record {
          after = λ t h. elim (table.get_cases id t) [
            | inl (e, same) ↦ rw e (h id, λ k. same k ∙ h k)
            | inr ((x, e), same) ↦ rw e (λ k. same k ∙ h k)
          ];
        })
        guarded
    where
      guarded :
          (o : Option OperationTask)
          → Triple
              (λ t. (o ≡ table.held id s) × Unchanged s t)
              (elim o [ none ↦ throw task_not_found | some r ↦ pure r ])
              (λ task t. table.held id s ≡ some task × Unchanged s t)
              (Unchanged s)
      guarded none = record { after = λ t h. h.1 }
      guarded (some r) = record { after = λ t h. (sym h.0, h.1) }

  -- a task that is read: the summary is that of what the table holds
  read_lem :
      (id : String) (task : OperationTask) (s : db.State)
      → Holding id task s
      → Triple (Unchanged s) (get_task db id) (λ y t. y ≡ serialize_task task) (λ t. Unit)
  unfolding get_task
  read_lem id task s h =
      bind-Triple (found db task_not_found id) (λ r. pure (serialize_task r))
        (weaken (found db task_not_found id) (λ r t q. q.0) (λ t q. tt) (found_lem id s))
        (λ r. record { after = λ t e. of_held (table.held id s) r h e })
    where
      of_held :
          (o : Option OperationTask) (r : OperationTask)
          → o ≡ some task
          → o ≡ some r
          → serialize_task r ≡ serialize_task task
      of_held o r p q =
          subst (Holds (λ x. serialize_task r ≡ serialize_task x)) p
            (subst (Holds (λ x. serialize_task r ≡ serialize_task x)) (sym q) refl)

  -- The next get_task returns the summary, unless the database raises.
  abbrev pub ReadsBack : String → OperationTaskSummary → db.State → Type 0
  ReadsBack id x s = Ended (λ y t. y ≡ x) (λ t. Unit) (get_task db id s).0 (get_task db id s).1

  reads_back :
      (id : String) (task : OperationTask) (s : db.State)
      → Holding id task s
      → ReadsBack id (serialize_task task) s
  reads_back id task s h = (read_lem id task s h).after s (λ k. refl)

  -- what a created task is, and where it is held
  Created : OperationTask → db.State → Type 0
  Created task t = Holding task.id task t × (task.state ≡ "queued" × task.finished_at ≡ none)

  -- what a creation that raises leaves: every task as it was, or the created task besides
  abbrev pub MayCreate : String → String → Option String → db.State → db.State → Type 0
  MayCreate operation_type target_type target_id s t =
      Unchanged s t
      ⊎ ((id : String) × ((at : ℕ) × (table.held id s ≡ none
              × Written db table.held id
                  (some (queued_task operation_type target_type target_id id at)) s t)))

  -- and an update that raises: every task as it was, or the task as updated
  abbrev pub MayUpdate : String → (OperationTask → OperationTask) → db.State → db.State → Type 0
  MayUpdate id change s t =
      Unchanged s t
      ⊎ ((task : OperationTask) × (table.held id s ≡ some task
            × Written db table.held id (some (change task)) s t))

  -- a change of what was as in `s`
  from_same :
      (id : String) (row : Option OperationTask) (s t t' : db.State)
      → Unchanged s t
      → Written db table.held id row t t'
      → Written db table.held id row s t'
  from_same id row s t t' same w k = w k ∙ rw (same k) refl

  add_lem :
      (operation_type target_type : String) (target_id : Option String) (s : db.State)
      → Triple
          (Unchanged s)
          (db.add (queued_task operation_type target_type target_id))
          Created
          (MayCreate operation_type target_type target_id s)
  unfolding Created
  add_lem operation_type target_type target_id s = record {
    after = λ t h. elim (table.add_cases (queued_task operation_type target_type target_id) t) [
      | inl (new, (at, (e, (fresh, w)))) ↦ rw e (w new ∙ rw (eq_refl new) refl, (refl, refl))
      | inr (inl ((x, e), same)) ↦ rw e (inl (λ k. same k ∙ h k))
      | inr (inr ((x, e), (new, (at, (fresh, w))))) ↦
          rw e (inr (new, (at, (sym (h new) ∙ fresh, from_same new _ s t _ h w))))
    ];
  }

  save_lem :
      (id : String) (row : OperationTask) (s : db.State)
      → Triple
          (Unchanged s)
          (db.save id row)
          (λ r t. (r ≡ row) × Holding id row t)
          (λ t. Unchanged s t ⊎ Written db table.held id (some row) s t)
  save_lem id row s = record {
    after = λ t h. elim (table.save_cases id row t) [
      | inl (e, w) ↦ rw e (refl, w id ∙ rw (eq_refl id) refl)
      | inr (inl ((x, e), same)) ↦ rw e (inl (λ k. same k ∙ h k))
      | inr (inr ((x, e), w)) ↦ rw e (inr (from_same id (some row) s t _ h w))
    ];
  }

  -- What create_task and update_task return is what the next get_task returns, unless the database
  -- raises: a created task is queued and not finished, an updated one has the state and the error
  -- message that were given. A method that raises leaves every task as it was, or has stored just that
  -- task: the one that it creates, or the one that it updates, as updated.
  pub write-get :
      (operation_type target_type id state : String) (target_id error_message : Option String)
      (now : ℕ) (s : db.State)
      → let created = create_task db operation_type target_type target_id s in
        let updated = update_task db id state target_id error_message now s in
        Ended
          (λ x t. ReadsBack x.id x t × (x.state ≡ "queued" × x.finished_at ≡ none))
          (MayCreate operation_type target_type target_id s)
          created.0
          created.1
        × Ended
            (λ x t. ReadsBack id x t × (x.state ≡ state × x.error_message ≡ error_message))
            (MayUpdate id (updated_task state target_id error_message now) s)
            updated.0
            updated.1
  unfolding create_task update_task updated_task Created
  write-get operation_type target_type id state target_id error_message now s = (
    (bind-Triple (db.add (queued_task operation_type target_type target_id))
          (λ task. pure (serialize_task task)) (add_lem operation_type target_type target_id s)
          (λ task. record { after = λ t h. (reads_back task.id task t h.0, h.1) })).after
        s (λ k. refl),
    (bind-Triple (found db task_not_found id) _
          (weaken (found db task_not_found id) (λ r t q. q) (λ t q. inl q) (found_lem id s))
          (λ task.
            bind-Triple (db.save id (updated_task state target_id error_message now task))
              (λ r. pure (serialize_task r)) (record { after = λ t h. tried task t h.0 h.1 })
              (λ r. record { after = λ t h. stored task r t h.0 h.1 }))).after
        s (λ k. refl),
  )
    where
      tried :
          (task : OperationTask) (t : db.State)
          → table.held id s ≡ some task
          → Unchanged s t
          → let row = updated_task state target_id error_message now task in
            let out = db.save id row t in
            Ended
              (λ r t'. (r ≡ row) × Holding id row t')
              (MayUpdate id (updated_task state target_id error_message now) s)
              out.0
              out.1
      tried task t e same =
          let row = updated_task state target_id error_message now task in
          (weaken (db.save id row) (λ r t' q. q)
              (λ t' q. elim q [ inl u ↦ inl u | inr w ↦ inr (task, (e, w)) ])
              (save_lem id row s)).after
            t same

      stored :
          (task r : OperationTask) (t : db.State)
          → r ≡ updated_task state target_id error_message now task
          → Holding id (updated_task state target_id error_message now task) t
          → ReadsBack id (serialize_task r) t × (r.state ≡ state × r.error_message ≡ error_message)
      stored task r t e h = (
        reads_back id r t (h ∙ ap (λ x. some x) (sym e)),
        (ap (λ x. x.state) e, ap (λ x. x.error_message) e),
      )
