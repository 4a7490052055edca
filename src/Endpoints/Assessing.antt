-- ===== src/Endpoints/Assessing.antt =====
-- app/api/v1/endpoints/vmware/assessment.py, assess_vms: what an assessment returns, and what it asks of
-- vCenter.
mod Tests
use mathlib.Core.Path.{subst}
use v_machine.Prelude.{
  ℕ, ◌+◌, ◌-◌, ◌≡◌, ◌≤◌, ◌<◌, refl, sym, ap, ◌∙◌, String, Option, some, List, [], ◌∷◌, map, length,
  arith, inl, inr, Bool, true,
}
use v_machine.Prelude.Dict.{lookup}
use v_machine.Prelude.Ends.{Ends, Ends-imp, returned_Ends, either_Ends, bind-Ends}
use v_machine.Database.{Database, IsTable}
use v_machine.Openstack.Server.{Exception}
use v_machine.Vmware.Inventory.{VmSummary}
use v_machine.Vmware.Mapping.Flavor.{Floats}
use v_machine.Vmware.Mapping.Resources.{Openstack}
use v_machine.Vmware.Factory.{Vsphere}
use v_machine.Vmware.Discovery.{vm_of, get_vm}
use v_machine.Vmware.Discovery.Once.{Source, Read, get_vm-Read}
use v_machine.Orchestration.Tasks.{OperationTask}
use v_machine.Endpoints.Settled.{Done, Raised, tracked-Settles}
use v_machine.Endpoints.Tracking.{tracked}
use v_machine.Endpoints.Vmware.{
  of_failure, AssessmentResult, AssessmentResponse, AssessmentWorld, compatible_count, summary_of,
  found_vm, each_found, for_each, assessment, now, assess_vms,
}
use v_machine.Endpoints.Repeated.{
  requested, elapsed, converted_Ends, of_vm, as_vm, body, loop, vms_of, Spent, each_Ends, loop_Ends,
}

count-length :
    {F : Type 0} (assessments : List (AssessmentResult F))
    → compatible_count assessments ≤ length assessments
unfolding compatible_count
count-length [] = omega arith
count-length (a ∷ rest) = ground (arith, count-length rest)

-- the summary of a response
abbrev pub IsBalanced : {F : Type 0} → AssessmentResponse F → Type 0
IsBalanced response =
    (lookup "total" response.summary ≡ some (length response.assessments))
    × ((compatible : ℕ) × ((incompatible : ℕ) × ((lookup "compatible" response.summary
              ≡ some compatible)
            × ((lookup "incompatible" response.summary ≡ some incompatible)
                × (compatible + incompatible ≡ length response.assessments)))))

summary-IsBalanced :
    {F : Type 0} (assessments : List (AssessmentResult F)) (task_id : Option String)
    → IsBalanced (record {
      assessments = assessments;
      summary = summary_of assessments;
      operation_task_id = task_id;
    })
unfolding summary_of lookup
summary-IsBalanced assessments task_id = (
  refl,
  (
    compatible_count assessments,
    (
      length assessments - compatible_count assessments,
      (refl, (refl, omega (arith, count-length assessments))),
    ),
  ),
)

-- the time that the lookups after the first take
abbrev pub after_first : (List String → ℕ) → List String → ℕ
after_first pause [] = 0
after_first pause (vm_id ∷ ids) = elapsed pause ids

module _ (fl : Floats) (os : Openstack) (vsphere : Vsphere) {Float : Type 0} (to_gb : ℕ → Float)
    (none_gb : Float) where
  abbrev V : Type 0
  V = AssessmentWorld Float

  -- at most one view was opened
  abbrev pub AtMostOne : V → V → Type 0
  AtMostOne w w' = w'.vcenter.views ≤ w.vcenter.views + 1

  -- one assessment for each VM of the request, among the VMs that vCenter lists
  pub record Assessed (ids : List String) (w : V) (assessments : List (AssessmentResult fl.F))
      (w' : V) : Type 0 where
    pub items : List VmSummary
    pub source : Source to_gb none_gb vsphere items
    pub assessed : map of_vm assessments ≡ map as_vm (requested ids items)
    pub views : AtMostOne w w'

  -- what the first lookup leaves, and what it found
  abbrev Looked : ℕ → String → V → Option VmSummary → V → Type 0
  Looked pause vm_id w o w' =
      (items : List VmSummary) × ((o ≡ vm_of vm_id items)
        × Read to_gb none_gb vsphere (record w.vcenter { clock = w.vcenter.clock + pause }) items
            w'.vcenter)

  first_Ends :
      (pause : ℕ) (vm_id : String) (w : V)
      → w.vcenter.rest.vm_cache.store ≡ []
      → let out = found_vm fl os vsphere to_gb none_gb pause vm_id w in
        Ends (Looked pause vm_id w) (λ e. AtMostOne w) out.0 out.1
  unfolding found_vm
  first_Ends pause vm_id w h =
      let later = record w.vcenter { clock = w.vcenter.clock + pause } in
      let out = get_vm to_gb none_gb vsphere vm_id later in
      converted_Ends of_failure (λ v. record w { vcenter = v }) (Looked pause vm_id w) (AtMostOne w)
        out.0 out.1 (get_vm-Read to_gb none_gb vsphere vm_id later h)

  work_Ends :
      (pause : List String → ℕ) (include_mapping : Bool) (vm_id : String) (ids : List String)
      (w : V)
      → w.vcenter.rest.vm_cache.store ≡ []
      → elapsed pause ids < w.vcenter.rest.vm_cache.ttl
      → let out = loop fl os vsphere to_gb none_gb pause include_mapping (vm_id ∷ ids) w in
        Ends (Assessed (vm_id ∷ ids) w) (λ e. AtMostOne w) out.0 out.1
  unfolding for_each requested
  work_Ends pause include_mapping vm_id ids w h short =
      let rest = loop fl os vsphere to_gb none_gb pause include_mapping ids in
      let one = body fl os vsphere to_gb none_gb pause include_mapping in
      let expiry = w.vcenter.clock + pause ids + w.vcenter.rest.vm_cache.ttl in
      bind-Ends (Looked (pause ids) vm_id w) (Assessed (vm_id ∷ ids) w) (λ e. AtMostOne w)
        (found_vm fl os vsphere to_gb none_gb (pause ids) vm_id)
        (λ o. each_found fl os vsphere to_gb none_gb one rest o) w
        (first_Ends (pause ids) vm_id w h)
        (λ o w' q.
          let items = q.0 in
          let chosen : Option VmSummary → List VmSummary =
            vms_of fl os vsphere to_gb none_gb pause include_mapping items expiry ids in
          let Q = λ (o' : Option VmSummary) (found : List (AssessmentResult fl.F)) (w'' : V).
            (map of_vm found ≡ map as_vm (chosen o')) × (w''.vcenter.views ≡ w'.vcenter.views) in
          let out = each_found fl os vsphere to_gb none_gb one rest o w' in
          Ends-imp (Q o) (Assessed (vm_id ∷ ids) w) (Spent fl os vsphere to_gb none_gb w')
            (λ e. AtMostOne w) out.0 out.1
            (λ found w'' k. record {
              items = items;
              source = q.1.1.0.1;
              assessed = k.0 ∙ ap (λ o'. map as_vm (chosen o')) q.1.0;
              views = omega (arith, k.1, q.1.1.1.1);
            })
            (λ e w'' k. omega (arith, k, q.1.1.1.1))
            (each_Ends fl os vsphere to_gb none_gb pause include_mapping items expiry ids o w'
              (loop_Ends fl os vsphere to_gb none_gb pause include_mapping items expiry ids)
              (q.1.1.0.0, omega (arith, q.1.1.1.0, short))))

  module _ (db : Database OperationTask) (table : IsTable db) (others : Exception → String) where
    -- An assessment by a service whose cache is empty, as that of a new request is, whose lookups after the
    -- first take less time together than the time to live of the cache: if it returns, it has one result
    -- for each requested id that names a VM, in the order of the request, of the first VM with that id
    -- among those that vCenter lists; the compatible and the incompatible of its summary add up to their
    -- number. Whether it returns or raises, vCenter is asked for at most one listing.
    pub assess_vms_lem :
        (pause : List String → ℕ) (vm_ids : List String) (s : db.State) (w : V)
        → w.vcenter.rest.vm_cache.store ≡ []
        → after_first pause vm_ids < w.vcenter.rest.vm_cache.ttl
        → let out = assess_vms fl os vsphere to_gb none_gb db others pause vm_ids (s, w) in
          Ends
            (λ response st. Assessed vm_ids w response.assessments st.1 × IsBalanced response)
            (λ e st. AtMostOne w st.1)
            out.0
            out.1
    unfolding assess_vms
    assess_vms_lem pause [] s w h short = omega arith
    assess_vms_lem pause (vm_id ∷ ids) s w h short =
        let job =
          assessment fl os vsphere to_gb none_gb pause
            (record { vm_ids = vm_id ∷ ids; include_mapping = true }) in
        let clock = now fl os vsphere to_gb none_gb in
        let out = tracked db others clock job (s, w) in
        let work = job.work w in
        let called = work_Ends pause true vm_id ids w h short in
        let one : AtMostOne w work.1 = either_Ends (AtMostOne w) work.0 work.1 (
          Ends-imp (Assessed (vm_id ∷ ids) w) (λ a. AtMostOne w) (λ e. AtMostOne w)
            (λ e. AtMostOne w) work.0 work.1 (λ a w' q. q.views) (λ e w' q. q) called) in
        Ends-imp (λ b st. Done db table others clock job s w b st.0 st.1)
          (λ response st. Assessed (vm_id ∷ ids) w response.assessments st.1 × IsBalanced response)
          (λ x st. Raised db table others clock job s w x st.0 st.1) (λ e st. AtMostOne w st.1)
          out.0 out.1
          (λ response st d. (
            subst (λ r. Assessed (vm_id ∷ ids) w r.assessments st.1) (sym d.answer)
                (subst (λ v. Assessed (vm_id ∷ ids) w d.result v) (sym d.world)
                  (returned_Ends (Assessed (vm_id ∷ ids) w) (λ e. AtMostOne w) work.0 work.1
                    d.result called d.returned)),
            subst IsBalanced (sym d.answer) (summary-IsBalanced d.result (some d.task_id)),
          ))
          (λ x st r. elim r [
            | inl refused ↦ subst (AtMostOne w) (sym refused.0) (omega arith)
            | inr stopped ↦ subst (AtMostOne w) (sym stopped.world) one
          ])
          (tracked-Settles db table others clock job s w)
