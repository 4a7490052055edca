-- ===== src/Vmware/Plan/Selection.antt =====
-- What a plan holds: the compatible VMs and no other, sorted, with sums that fit.
use mathlib.Core.List.{Perm}
use v_machine.Prelude.{
  ℕ, ◌+◌, ◌≡◌, ◌≤◌, refl, String, Bool, false, Option, List, [], ◌∷◌, map, sum, length, arith, suc,
  any, ◌||◌, ltb, if◌then◌else◌, Bool-cases, inl, inr, All,
}
use v_machine.Prelude.Dict.{Dict}
use v_machine.Prelude.Exec.{ok, raise}
use v_machine.Vmware.Inventory.{VmSummary}
use v_machine.Vmware.Assessment.{ScoredResult, VmMapping, PlanVm, PlanResponse}
use v_machine.Vmware.Plan.{validation_error, plan_vm, validated, plan_vms, generate_plan}
use v_machine.Vmware.Plan.Sort.{insert, sort}
use v_machine.Vmware.Plan.Order.{IsSorted, sort-IsSorted, sort-perm}

abbrev pub out_of_range : PlanVm → Bool
out_of_range p = ltb p.priority 1 || ltb 10 p.priority

abbrev pub IsAllowed : PlanVm → Type 0
IsAllowed p = (1 ≤ p.priority) × (p.priority ≤ 10)

abbrev pub total_minutes : List PlanVm → ℕ
total_minutes ps = sum (map (λ p. p.estimated_total_minutes) ps)

All-IsAllowed : (ps : List PlanVm) → any out_of_range ps ≡ false → All IsAllowed ps
All-IsAllowed [] h = tt
All-IsAllowed (p ∷ ps) h = ground (arith, All-IsAllowed ps)

none_out_of_range : (ps : List PlanVm) → All IsAllowed ps → any out_of_range ps ≡ false
none_out_of_range [] h = refl
none_out_of_range (p ∷ ps) h = ground (arith, none_out_of_range ps h.1)

All-insert :
    (p : PlanVm) (ps : List PlanVm) → IsAllowed p → All IsAllowed ps → All IsAllowed (insert p ps)
unfolding insert
All-insert p [] a h = (a, tt)
All-insert p (q ∷ ps) a h = ground (arith, All-insert p ps a h.1)

All-sort : (ps : List PlanVm) → All IsAllowed ps → All IsAllowed (sort ps)
unfolding sort
All-sort [] h = tt
All-sort (p ∷ ps) h = All-insert p (sort ps) h.0 (All-sort ps h.1)

sizes-insert :
    (p : PlanVm) (ps : List PlanVm)
    → (length (insert p ps) ≡ suc (length ps))
      × (total_minutes (insert p ps) ≡ p.estimated_total_minutes + total_minutes ps)
unfolding insert
sizes-insert p [] = (refl, refl)
sizes-insert p (q ∷ ps) = ground (arith, sizes-insert p ps)

sizes-sort :
    (ps : List PlanVm)
    → (length (sort ps) ≡ length ps) × (total_minutes (sort ps) ≡ total_minutes ps)
unfolding sort
sizes-sort [] = (refl, refl)
sizes-sort (p ∷ ps) = ground (arith, sizes-insert p (sort ps), sizes-sort ps)

module _ {F : Type 0} (overrides : Dict ℕ) where
  -- the plans of the VMs that the assessment found compatible, in the order given
  abbrev pub planned : List (VmSummary × ScoredResult × Option (VmMapping F)) → List PlanVm
  planned [] = []
  planned ((vm, c, m) ∷ vms) =
      if c.compatible then plan_vm overrides vm m ∷ planned vms else planned vms

  plan_vms_lem :
      (vms : List (VmSummary × ScoredResult × Option (VmMapping F)))
      → plan_vms overrides vms
        ≡ (if any out_of_range (planned vms) then raise validation_error else ok (planned vms))
  unfolding plan_vms validated
  plan_vms_lem [] = refl
  plan_vms_lem ((vm, c, m) ∷ vms) = ground (arith, plan_vms_lem vms)

  module _ (plan_id created_at : String)
      (vms : List (VmSummary × ScoredResult × Option (VmMapping F))) where
    -- A plan that is returned holds the plans of exactly the compatible VMs, each as often as it was
    -- given, sorted by priority and then by name; every priority lies in 1 to 10; and the totals
    -- are the number of its VMs and the sum of their minutes.
    pub generate_plan_ok :
        (plan : PlanResponse)
        → generate_plan plan_id created_at overrides vms ≡ ok plan
        → Perm plan.vms (planned vms)
          × IsSorted plan.vms
          × All IsAllowed plan.vms
          × (plan.total_vms ≡ length (planned vms))
          × (plan.total_estimated_minutes ≡ total_minutes (planned vms))
    unfolding generate_plan
    generate_plan_ok plan h = elim (Bool-cases (any out_of_range (planned vms))) [
      | inl bad ↦ absurd (ground (arith, plan_vms_lem vms))
      | inr good ↦
          let e : plan.vms ≡ sort (planned vms) = ground (arith, plan_vms_lem vms) in
          (
            rw e (sort-perm (planned vms)),
            rw e (sort-IsSorted (planned vms)),
            rw e (All-sort (planned vms) (All-IsAllowed (planned vms) good)),
            ground (arith, plan_vms_lem vms, sizes-sort (planned vms)),
            ground (arith, plan_vms_lem vms, sizes-sort (planned vms)),
          )
    ]

    -- A plan is returned whenever every compatible VM has a priority in 1 to 10.
    pub generate_plan_total :
        All IsAllowed (planned vms)
        → (plan : PlanResponse) × (generate_plan plan_id created_at overrides vms ≡ ok plan)
    unfolding generate_plan
    generate_plan_total h = (
      record {
        plan_id = plan_id;
        vms = sort (planned vms);
        total_vms = length (sort (planned vms));
        total_estimated_minutes = total_minutes (sort (planned vms));
        created_at = created_at;
      },
      rw (plan_vms_lem vms, none_out_of_range (planned vms) h, generate_plan),
    )
