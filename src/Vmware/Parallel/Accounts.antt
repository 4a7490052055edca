-- ===== src/Vmware/Parallel/Accounts.antt =====
-- app/services/vmware/parallel_assessment.py: the counts that a parallel assessment reports.
use v_machine.Prelude.{
  ℕ, suc, ◌+◌, ◌-◌, ◌≤◌, ◌≡◌, refl, sym, ap, ◌∙◌, ◌<◌, map, String, Bool, false, Option-cases,
  Option, none, some, List, [], ◌∷◌, ◌++◌, arith, if◌then◌else◌, length, length-append, length-map,
  eq_refl, str_eq, is_some, inl, inr, ◌⊎◌, count_if, count_if-append,
}
use mathlib.Core.Path.{subst}
use mathlib.Core.List.{Perm, map-append, append-nil, append_assoc}
use mathlib.Core.List.Perm
use mathlib.Core.List as Lists
use mathlib.Core.Nat as Core
use v_machine.Prelude.Exec.{Result, ok, raise, Result-cases}
use v_machine.Openstack.Server.{Exception}
use v_machine.Prelude.Ends.{Ends}
use v_machine.Vmware.Assessment.{Progress}
use v_machine.Vmware.Inventory.{VmSummary}
use v_machine.Prelude.Dict.{Counter, Dict, lookup, insert, lookup-insert}
use v_machine.Vmware.Mapping.Resources.{Error, Openstack, Engine}
use v_machine.Vmware.Mapping.Flavor.{Floats}
use v_machine.Vmware.Parallel.{
  Conditions, Service, Single, evaluate_single, map_if, retry, evaluate_one, is_completed,
  set_depth, set_task, progress_of, collect, OperationCalls, open_task, close_task, enqueued,
  assess_all, closed, started, assess_parallel, get_progress, get_results,
}

lookup-inserted : {V : Type 0} (k : String) (v : V) (d : Dict V) → lookup k (insert k v d) ≡ some v
lookup-inserted k v d = rw (lookup-insert k k v d, eq_refl k) refl

-- the library's numbers as native ones
native : Core.ℕ → ℕ
native Core.zero = 0
native (Core.suc n) = suc (native n)

native-length : {A : Type 0} (xs : List A) → native (Lists.length xs) ≡ length xs
unfolding native
native-length [] = refl
native-length (x ∷ xs) = ap suc (native-length xs)

length-perm : {A : Type 0} {xs ys : List A} → Perm xs ys → length xs ≡ length ys
length-perm {xs} {ys} p = sym (native-length xs) ∙ ap native (Perm.length-eq p) ∙ native-length ys

module _ (fl : Floats) where
  -- A result has a compatibility result exactly if it is completed, and is no timeout.
  abbrev Settled : Single fl → Type 0
  Settled single =
      (is_some single.compatibility_result ≡ is_completed fl single)
      × (str_eq single.status "timeout" ≡ false)

  abbrev OnOk : (Single fl → Type 0) → Result Error (Single fl) → Type 0
  OnOk P (ok single) = P single
  OnOk P (raise e) = Unit

  attempt-Settled :
      (vm_id : String) (include_mapping : Bool) (inventory : Result Error (Option VmSummary))
      (os : Openstack) (interrupted : Option (Engine × Counter)) (s : Service fl.F)
      → OnOk Settled
          (evaluate_single fl vm_id include_mapping
            (record { inventory = inventory; openstack = os; interrupted = interrupted })
            s).0
  unfolding evaluate_single
  attempt-Settled vm_id include_mapping (raise e) os interrupted s = tt
  attempt-Settled vm_id include_mapping (ok none) os interrupted s = (refl, refl)
  attempt-Settled vm_id include_mapping (ok (some vm)) os interrupted s =
      elim (Result-cases (map_if fl include_mapping os vm s.engine).0) [
        | inl (m, e) ↦ rw (e, OnOk) (refl, refl)
        | inr (x, e) ↦ rw (e, OnOk) tt
      ]

  single-Settled :
      (vm_id : String) (include_mapping : Bool) (c : Conditions) (s : Service fl.F)
      (single : Single fl)
      → (evaluate_single fl vm_id include_mapping c s).0 ≡ ok single
      → Settled single
  single-Settled vm_id include_mapping c s single h =
      subst (OnOk Settled) h
        (attempt-Settled vm_id include_mapping c.inventory c.openstack c.interrupted s)

  attempt_id :
      (vm_id : String) (include_mapping : Bool) (inventory : Result Error (Option VmSummary))
      (os : Openstack) (interrupted : Option (Engine × Counter)) (s : Service fl.F)
      → ((vm : VmSummary) → inventory ≡ ok (some vm) → vm.id ≡ vm_id)
      → OnOk
          (λ single. single.vm_id ≡ vm_id)
          (evaluate_single fl vm_id include_mapping
            (record { inventory = inventory; openstack = os; interrupted = interrupted })
            s).0
  unfolding evaluate_single
  attempt_id vm_id include_mapping (raise e) os interrupted s by_id = tt
  attempt_id vm_id include_mapping (ok none) os interrupted s by_id = refl
  attempt_id vm_id include_mapping (ok (some vm)) os interrupted s by_id =
      elim (Result-cases (map_if fl include_mapping os vm s.engine).0) [
        | inl (m, e) ↦ rw (e, OnOk) (by_id vm refl)
        | inr (x, e) ↦ rw (e, OnOk) tt
      ]

  abbrev pub of_id : Single fl → String
  of_id single = single.vm_id

  single_counts :
      (vm_id : String) (include_mapping : Bool) (c : Conditions) (s : Service fl.F)
      → let s' = (evaluate_single fl vm_id include_mapping c s).1 in
        (s'.timeouts ≡ s.timeouts) × (s'.retries ≡ s.retries)
  unfolding evaluate_single
  single_counts vm_id include_mapping c s = ground arith

  module _ (conditions : String → ℕ → Conditions) (error_text : Error → String) where
    abbrev one : String → Bool → ℕ → Service fl.F → Single fl × Service fl.F
    one = evaluate_one fl conditions error_text

    -- Assessing a VM gives a compatibility result exactly if it is completed; a timeout is counted
    -- exactly if the result says so; and at most one retry is, whatever the two attempts meet.
    pub evaluate_one_settles :
        (vm_id : String) (include_mapping : Bool) (timeout_seconds : ℕ) (s : Service fl.F)
        → let (single, s') =
            evaluate_one fl conditions error_text vm_id include_mapping timeout_seconds s in
          (is_some single.compatibility_result ≡ is_completed fl single)
          × (s'.timeouts ≡ s.timeouts + (if str_eq single.status "timeout" then 1 else 0))
          × (s.retries ≤ s'.retries)
          × (s'.retries ≤ s.retries + 1)
    unfolding evaluate_one retry
    evaluate_one_settles vm_id include_mapping timeout_seconds s =
        let c = conditions vm_id 0 in
        let d = conditions vm_id 1 in
        let first = evaluate_single fl vm_id include_mapping c s in
        let again = record first.1 { retries = first.1.retries + 1 } in
        let second = evaluate_single fl vm_id include_mapping d again in
        let p = single_counts vm_id include_mapping c s in
        let q = single_counts vm_id include_mapping d again in
        elim (Option-cases c.interrupted) [
          | inr (left, i) ↦ rw (i, evaluate_one) (refl, refl, omega arith, omega arith)
          | inl i ↦ elim (Result-cases first.0) [
            | inl (single, e) ↦
                let t = single-Settled vm_id include_mapping c s single e in
                rw (i, e, evaluate_one)
                  (t.0, ground (arith, t, p), omega (arith, p), omega (arith, p))
            | inr (x, e) ↦ elim (Option-cases d.interrupted) [
              | inr (left, j) ↦
                  rw (i, e, evaluate_one, j, retry)
                    (refl, omega (arith, p), omega (arith, p), omega (arith, p))
              | inl j ↦ elim (Result-cases second.0) [
                | inl (single, f) ↦
                    let t = single-Settled vm_id include_mapping d again single f in
                    rw (i, e, evaluate_one, j, f, retry)
                      (t.0, ground (arith, t, p, q), omega (arith, p, q), omega (arith, p, q))
                | inr (y, f) ↦
                    rw (i, e, evaluate_one, j, f, retry)
                      (refl, omega (arith, p, q), omega (arith, p, q), omega (arith, p, q))
              ]
            ]
          ]
        ]

    -- the inventory finds a VM by its id
    module _
        (by_id : (vm_id : String) (attempt : ℕ) (vm : VmSummary)
          → (conditions vm_id attempt).inventory ≡ ok (some vm)
          → vm.id ≡ vm_id) where
      single_id :
          (vm_id : String) (attempt : ℕ) (include_mapping : Bool) (s : Service fl.F)
          (single : Single fl)
          → (evaluate_single fl vm_id include_mapping (conditions vm_id attempt) s).0 ≡ ok single
          → single.vm_id ≡ vm_id
      single_id vm_id attempt include_mapping s single h = subst (OnOk (λ x. x.vm_id ≡ vm_id)) h (
          attempt_id vm_id include_mapping (conditions vm_id attempt).inventory
            (conditions vm_id attempt).openstack (conditions vm_id attempt).interrupted s
            (by_id vm_id attempt))

      one_id :
          (vm_id : String) (include_mapping : Bool) (timeout_seconds : ℕ) (s : Service fl.F)
          → (one vm_id include_mapping timeout_seconds s).0.vm_id ≡ vm_id
      unfolding evaluate_one retry
      one_id vm_id include_mapping timeout_seconds s =
          let c = conditions vm_id 0 in
          let d = conditions vm_id 1 in
          let first = evaluate_single fl vm_id include_mapping c s in
          let again = record first.1 { retries = first.1.retries + 1 } in
          let second = evaluate_single fl vm_id include_mapping d again in
          elim (Option-cases c.interrupted) [
            | inr (left, i) ↦ rw (i, evaluate_one) refl
            | inl i ↦ elim (Result-cases first.0) [
              | inl (single, e) ↦
                  rw (i, e, evaluate_one) (single_id vm_id 0 include_mapping s single e)
              | inr (x, e) ↦ elim (Option-cases d.interrupted) [
                | inr (left, j) ↦ rw (i, e, evaluate_one, j, retry) refl
                | inl j ↦ elim (Result-cases second.0) [
                  | inl (single, f) ↦
                      rw (i, e, evaluate_one, j, f, retry)
                        (single_id vm_id 1 include_mapping again single f)
                  | inr (y, f) ↦ rw (i, e, evaluate_one, j, f, retry) refl
                ]
              ]
            ]
          ]

      module _ (task_id : String) (include_mapping : Bool) (timeout_seconds total : ℕ) where
        abbrev loop :
            List String
            → List (Single fl)
            → ℕ
            → ℕ
            → Service fl.F
            → (List (Single fl) × (ℕ × ℕ)) × Service fl.F
        loop = collect fl conditions error_text task_id include_mapping timeout_seconds total

        loop_counts :
            (schedule : List String) (results : List (Single fl)) (completed failed : ℕ)
            (s : Service fl.F)
            → completed ≡ count_if (is_completed fl) results
            → completed + failed ≡ length results
            → let ((results', (completed', failed')), s') =
                loop schedule results completed failed s in
              (completed' ≡ count_if (is_completed fl) results')
              × (completed' + failed' ≡ length results')
              × (map of_id results' ≡ map of_id results ++ schedule)
        unfolding collect
        loop_counts [] results completed failed s h k = (h, k, sym (append-nil (map of_id results)))
        loop_counts (vm_id ∷ schedule) results completed failed s h k =
            let (single, s1) = one vm_id include_mapping timeout_seconds s in
            let done = is_completed fl single in
            let completed' : ℕ = if done then completed + 1 else completed in
            let failed' : ℕ = if done then failed else failed + 1 in
            let remaining = total - completed' - failed' in
            let s2 = set_depth fl remaining (
              set_task fl (progress_of fl task_id total completed' failed' remaining "running")
                s1) in
            let counted : completed' ≡ count_if (is_completed fl) (results ++ single ∷ []) =
              ground (arith, h, count_if-append (is_completed fl) results (single ∷ [])) in
            let balanced : completed' + failed' ≡ length (results ++ single ∷ []) =
              ground (arith, k, length-append results (single ∷ [])) in
            let (p, q, r) =
              loop_counts schedule (results ++ single ∷ []) completed' failed' s2 counted
                balanced in
            (
              p,
              q,
              r
                  ∙ ap (λ l. l ++ schedule)
                      (map-append of_id results (single ∷ [])
                        ∙ ap (λ i. map of_id results ++ i ∷ [])
                            (one_id vm_id include_mapping timeout_seconds s))
                  ∙ append_assoc (map of_id results) (vm_id ∷ []) schedule,
            )

      -- what is stored and counted once every VM has been assessed
      pub record Accounted (task_id : String) (vm_ids : List String) (progress : Progress)
          (s' : Service fl.F) : Type 0 where
        pub results : List (Single fl)
        pub results_stored : get_results fl task_id s' ≡ some results
        pub progress_stored : get_progress fl task_id s' ≡ some progress
        pub assessed : Perm (map of_id results) vm_ids
        pub completed : progress.completed ≡ count_if (is_completed fl) results
        pub balanced : progress.completed + progress.failed ≡ progress.total_vms
        pub total : progress.total_vms ≡ length vm_ids
        pub in_progress : progress.in_progress ≡ 0
        pub all_completed : progress.failed ≡ 0 → progress.status ≡ "completed"
        pub some_failed : 0 < progress.failed → progress.status ≡ "completed_with_errors"

      -- what is stored where the operation task could not be created or set to running
      abbrev pub Unstarted : String → List String → Service fl.F → Type 0
      Unstarted task_id vm_ids s' =
          (progress : Progress) × ((get_progress fl task_id s' ≡ some progress)
            × ((progress.status ≡ "running") × (progress.in_progress ≡ length vm_ids)))

      assess_all_lem :
          (task_id : String) (vm_ids schedule : List String) (include_mapping : Bool)
          (timeout_seconds : ℕ) (s : Service fl.F)
          → Perm schedule vm_ids
          → let out =
              assess_all fl conditions error_text task_id
                (length vm_ids)
                schedule
                include_mapping
                timeout_seconds
                s in
            Accounted task_id vm_ids out.0 out.1
      unfolding assess_all
      assess_all_lem task_id vm_ids schedule include_mapping timeout_seconds s h =
          let total = length vm_ids in
          let out = loop task_id include_mapping timeout_seconds total schedule [] 0 0 s in
          let (p, q, r) =
            loop_counts task_id include_mapping timeout_seconds total schedule [] 0 0 s refl refl in
          let ids : Perm (map of_id out.0.0) vm_ids = subst (λ l. Perm l vm_ids) (sym r) h in
          record {
            results = out.0.0;
            results_stored = lookup-inserted task_id _ _;
            progress_stored = lookup-inserted task_id _ _;
            assessed = ids;
            completed = p;
            balanced = q ∙ (sym (length-map of_id out.0.0) ∙ length-perm ids);
            total = refl;
            in_progress = refl;
            all_completed = λ e. ground (arith, e);
            some_failed = λ e. ground (arith, e);
          }

      -- the operation task and the depth of the queue are beside this
      accounted :
          (task_id : String) (vm_ids : List String) (progress : Progress) (s s' : Service fl.F)
          → s'.results ≡ s.results
          → s'.tasks ≡ s.tasks
          → Accounted task_id vm_ids progress s
          → Accounted task_id vm_ids progress s'
      accounted task_id vm_ids progress s s' results tasks h = record {
        results = h.results;
        results_stored = ap (lookup task_id) results ∙ h.results_stored;
        progress_stored = ap (lookup task_id) tasks ∙ h.progress_stored;
        assessed = h.assessed;
        completed = h.completed;
        balanced = h.balanced;
        total = h.total;
        in_progress = h.in_progress;
        all_completed = h.all_completed;
        some_failed = h.some_failed;
      }

      abbrev Raised : String → List String → Exception → Service fl.F → Type 0
      Raised task_id vm_ids e s' =
          Unstarted task_id vm_ids s'
          ⊎ ((progress : Progress) × Accounted task_id vm_ids progress s')

      closed_Ends :
          (task_id : String) (vm_ids : List String) (operation : Option OperationCalls)
          (progress : Progress) (s : Service fl.F)
          → Accounted task_id vm_ids progress s
          → let out =
              closed fl conditions error_text progress
                (close_task fl operation progress.failed s) in
            Ends (Accounted task_id vm_ids) (Raised task_id vm_ids) out.0 out.1
      unfolding close_task
      closed_Ends task_id vm_ids none progress s h =
          accounted task_id vm_ids progress s _ refl refl h
      closed_Ends task_id vm_ids (some calls) progress s h = elim (Result-cases calls.ends) [
        | inl (u, e) ↦ rw (e, Ends) (accounted task_id vm_ids progress s _ refl refl h)
        | inr (x, e) ↦
            rw (e, Ends) (inr (progress, accounted task_id vm_ids progress s _ refl refl h))
      ]

      -- Where the inventory finds VMs by their id and the tasks that ran are those of the request in some
      -- order, a parallel assessment that returns has assessed each id as often as it was given; each
      -- is counted once, as completed or as failed, and none in progress; the completed are those whose
      -- result says so; the status is "completed" if none failed, else "completed_with_errors"; and the
      -- progress and the results that can be asked for are those of this run. One that raises has
      -- assessed and stored them all the same, or its operation task could not be created or set to
      -- running, and its progress stays at running with all in progress.
      pub assess-Accounted :
          (task_id : String) (vm_ids schedule : List String) (include_mapping : Bool)
          (timeout_seconds : ℕ) (operation : Option OperationCalls) (s : Service fl.F)
          → Perm schedule vm_ids
          → let out =
              assess_parallel fl conditions error_text task_id vm_ids schedule include_mapping
                timeout_seconds operation s in
            Ends
              (Accounted task_id vm_ids)
              (λ e s'.
                Unstarted task_id vm_ids s'
                ⊎ ((progress : Progress) × Accounted task_id vm_ids progress s'))
              out.0
              out.1
      unfolding assess_parallel open_task close_task
      assess-Accounted task_id vm_ids schedule include_mapping timeout_seconds operation s h =
          opened operation
        where
          run_all :
              (operation : Option OperationCalls) (t : Service fl.F)
              → let all =
                  assess_all fl conditions error_text task_id
                    (length vm_ids)
                    schedule
                    include_mapping
                    timeout_seconds
                    t in
                let out =
                  closed fl conditions error_text all.0
                    (close_task fl operation all.0.failed all.1) in
                Ends (Accounted task_id vm_ids) (Raised task_id vm_ids) out.0 out.1
          run_all operation t =
              let all =
                assess_all fl conditions error_text task_id (length vm_ids) schedule include_mapping
                  timeout_seconds t in
              closed_Ends task_id vm_ids operation all.0 all.1
                (assess_all_lem task_id vm_ids schedule include_mapping timeout_seconds t h)

          opened :
              (operation : Option OperationCalls)
              → let out =
                  started fl conditions error_text task_id
                    (length vm_ids)
                    schedule
                    include_mapping
                    timeout_seconds
                    operation
                    (open_task fl operation (enqueued fl conditions error_text task_id vm_ids s)) in
                Ends (Accounted task_id vm_ids) (Raised task_id vm_ids) out.0 out.1
          opened none = run_all none (enqueued fl conditions error_text task_id vm_ids s)
          opened (some calls) = elim (Result-cases calls.creates) [
            | inr (x, e) ↦ rw (e, Ends) (inl (_, (lookup-inserted task_id _ _, (refl, refl))))
            | inl (u, e) ↦ elim (Result-cases calls.starts) [
              | inr (x, f) ↦ rw (e, f, Ends) (inl (_, (lookup-inserted task_id _ _, (refl, refl))))
              | inl (v, f) ↦ rw (e, f, Ends) (run_all (some calls) _)
            ]
          ]
