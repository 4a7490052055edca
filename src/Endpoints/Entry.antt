-- ===== src/Endpoints/Entry.antt =====
-- app/services/core/operation_task_service.py, as the endpoints use it: what the table holds of the task
-- of one request, from its creation on.
use mathlib.Core.Path.{subst}
use v_machine.Prelude.{
  ℕ, ◌≡◌, refl, sym, ap, ◌∙◌, String, false, Option, none, some, str_eq, eq_refl, if◌then◌else◌,
  inl, inr, ◌⊎◌, true,
}
use v_machine.Prelude.Exec.{pure}
use v_machine.Prelude.Ends.{Ends, bind-Ends, Ended-Ends}
use v_machine.Database.{Database, IsTable, Holds, Same, Written, found}
use v_machine.Orchestration.Tasks.{
  OperationTask, serialize_task, queued_task, is_final, updated_task, task_not_found, create_task,
  update_task,
}
use v_machine.Orchestration.Readback.{found_lem}

-- the time at which a task has ended, by its state
abbrev pub stamp : String → ℕ → Option ℕ
stamp state at = if is_final state then some at else none

module _ (db : Database OperationTask) (table : IsTable db) where
  abbrev pub Unmoved : db.State → db.State → Type 0
  Unmoved = Same db table.held

  -- The task `id` is new since `s`: it is in this state, has this error, and has ended if the state is
  -- final; every other task is as it was.
  pub record Entry (s : db.State) (operation_type id state : String) (error_message : Option String)
      (t : db.State) : Type 0 where
    pub fresh : table.held id s ≡ none
    pub row : OperationTask
    pub holds : table.held id t ≡ some row
    pub operation : row.operation_type ≡ operation_type
    pub state_is : row.state ≡ state
    pub error_is : row.error_message ≡ error_message
    pub at : ℕ
    pub finished : row.finished_at ≡ stamp state at
    pub others : (k : String) → str_eq id k ≡ false → table.held k t ≡ table.held k s

  module _ (s : db.State) (operation_type : String) where
    Unmoved-Entry :
        (id state : String) (error_message : Option String) (t t' : db.State)
        → Entry s operation_type id state error_message t
        → Unmoved t t'
        → Entry s operation_type id state error_message t'
    Unmoved-Entry id state error_message t t' h same = record {
      fresh = h.fresh;
      row = h.row;
      holds = same id ∙ h.holds;
      operation = h.operation;
      state_is = h.state_is;
      error_is = h.error_is;
      at = h.at;
      finished = h.finished;
      others = λ k ne. same k ∙ h.others k ne;
    }

    -- what a creation that raises leaves: it may have stored the task
    abbrev pub Uncreated : db.State → Type 0
    Uncreated t = Unmoved s t ⊎ ((id : String) × Entry s operation_type id "queued" none t)

    added-Entry :
        (target_type : String) (target_id : Option String) (new : String) (at : ℕ) (t : db.State)
        → table.held new s ≡ none
        → Written db table.held new
            (some (queued_task operation_type target_type target_id new at))
            s
            t
        → Entry s operation_type new "queued" none t
    added-Entry target_type target_id new at t fresh w = record {
      fresh = fresh;
      row = queued_task operation_type target_type target_id new at;
      holds = w new ∙ rw (eq_refl new) refl;
      operation = refl;
      state_is = refl;
      error_is = refl;
      at = 0;
      finished = refl;
      others = λ k ne. w k ∙ rw ne refl;
    }

    add_Ends :
        (target_type : String) (target_id : Option String)
        → let out = db.add (queued_task operation_type target_type target_id) s in
          Ends (λ r t. Entry s operation_type r.id "queued" none t) (λ e. Uncreated) out.0 out.1
    add_Ends target_type target_id =
        elim (table.add_cases (queued_task operation_type target_type target_id) s) [
          | inl (new, (at, (e, (fresh, w)))) ↦
              rw (e, Ends) (added-Entry target_type target_id new at _ fresh w)
          | inr (inl ((x, e), same)) ↦ rw (e, Ends) (inl same)
          | inr (inr ((x, e), (new, (at, (fresh, w))))) ↦
              rw (e, Ends) (inr (new, added-Entry target_type target_id new at _ fresh w))
        ]

    pub create_task_Ends :
        (target_type : String) (target_id : Option String)
        → let out = create_task db operation_type target_type target_id s in
          Ends (λ x t. Entry s operation_type x.id "queued" none t) (λ e. Uncreated) out.0 out.1
    unfolding create_task
    create_task_Ends target_type target_id =
        bind-Ends (λ r t. Entry s operation_type r.id "queued" none t) _ _
          (db.add (queued_task operation_type target_type target_id)) (λ r. pure (serialize_task r))
          s (add_Ends target_type target_id) (λ r t h. h)

    module _ (id old new : String) (target_id error_message : Option String) (now : ℕ)
        (ends : (is_final old ≡ false) ⊎ (is_final new ≡ true)) where
      abbrev changed : OperationTask → OperationTask
      changed = updated_task new target_id error_message now

      saved-Entry :
          (t t' : db.State)
          → (h : Entry s operation_type id old none t)
          → Written db table.held id (some (changed h.row)) t t'
          → Entry s operation_type id new error_message t'
      unfolding updated_task
      saved-Entry t t' h w = record {
        fresh = h.fresh;
        row = changed h.row;
        holds = w id ∙ rw (eq_refl id) refl;
        operation = h.operation;
        state_is = refl;
        error_is = refl;
        at = now;
        finished = elim ends [
          | inl open_task ↦
              ap (λ o. if is_final new then some now else o) (h.finished ∙ rw open_task refl)
          | inr final ↦ rw final refl
        ];
        others = λ k ne. w k ∙ rw ne (h.others k ne);
      }

      -- what an update that raises leaves: it may have stored the change
      abbrev pub Unsettled : db.State → Type 0
      Unsettled t' =
          Entry s operation_type id old none t' ⊎ Entry s operation_type id new error_message t'

      save_Ends :
          (t : db.State) (r : OperationTask)
          → (h : Entry s operation_type id old none t) → r ≡ h.row
          → let out = db.save id (changed r) t in
            Ends
              (λ x t'. Entry s operation_type id new error_message t')
              (λ e. Unsettled)
              out.0
              out.1
      save_Ends t r h same_row = elim (table.save_cases id (changed r) t) [
        | inl (e, w) ↦
            rw (e, Ends)
              (saved-Entry t _ h (
                subst
                  (λ x. Written db table.held id (some (changed x)) t (db.save id (changed r) t).1)
                  same_row w))
        | inr (inl ((x, e), same)) ↦ rw (e, Ends) (inl (Unmoved-Entry id old none t _ h same))
        | inr (inr ((x, e), w)) ↦
            rw (e, Ends)
              (inr (
                saved-Entry t _ h (
                  subst
                    (λ x'.
                      Written db table.held id (some (changed x')) t (db.save id (changed r) t).1)
                    same_row w)))
      ]

      -- the row that is found is the row that is held
      same_row :
          (o : Option OperationTask) (r row : OperationTask) → o ≡ some row → o ≡ some r → r ≡ row
      same_row o r row p q = subst (Holds (λ x. r ≡ x)) p (subst (Holds (λ x. r ≡ x)) (sym q) refl)

      abbrev Found : OperationTask → db.State → Type 0
      Found r t' = (h : Entry s operation_type id old none t') × (r ≡ h.row)

      pub update_task_Ends :
          (t : db.State)
          → Entry s operation_type id old none t
          → let out = update_task db id new target_id error_message now t in
            Ends
              (λ x t'. Entry s operation_type id new error_message t')
              (λ e. Unsettled)
              out.0
              out.1
      unfolding update_task Unmoved-Entry
      update_task_Ends t h =
          bind-Ends Found (λ x t''. Entry s operation_type id new error_message t'')
            (λ e. Unsettled) (found db task_not_found id) _ t
            (Ended-Ends (λ r t'. (table.held id t ≡ some r) × Unmoved t t') Found (Unmoved t)
              (λ e. Unsettled) (found db task_not_found id t).0 (found db task_not_found id t).1
              ((found_lem db table id t).after t (λ k. refl))
              (λ r t' p. (Unmoved-Entry id old none t t' h p.1, same_row _ r h.row h.holds p.0))
              (λ e t' p. inl (Unmoved-Entry id old none t t' h p)))
            (λ r t' p.
              bind-Ends (λ x t''. Entry s operation_type id new error_message t'')
                (λ x t''. Entry s operation_type id new error_message t'') (λ e. Unsettled)
                (db.save id (changed r)) (λ x. pure (serialize_task x)) t' (save_Ends t' r p.0 p.1)
                (λ x t'' q. q))
