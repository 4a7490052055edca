-- ===== src/Vmware/Compatibility/Verdict.antt =====
-- The verdict of `evaluate`, read off the VM alone.
use v_machine.Prelude.{
  ℕ, ◌+◌, ◌-◌, ◌*◌, ◌≡◌, not, ◌&&◌, List, [], ◌∷◌, leb, ◌==◌, any, count_if, arith,
}
use v_machine.Prelude.Dict.{Counter}
use v_machine.Vmware.Inventory.{VmSummary}
use v_machine.Vmware.Assessment.{Issue}
use v_machine.Vmware.Compatibility.{score_of, is_blocking_critical, run_checks, result_of, evaluate}
use v_machine.Vmware.Compatibility.Report.{Report}
use v_machine.Vmware.Compatibility.Tally.{penalty, criticals, penalty_of, score_loop}
use v_machine.Vmware.Compatibility.Blockers.{critical_blockers, high_blockers, run_checks-Adds}

any-eq-count :
    (is : List Issue) → any is_blocking_critical is ≡ not (count_if is_blocking_critical is == 0)
any-eq-count [] = ground arith
any-eq-count (i ∷ is) = ground (arith, any-eq-count is)

pub score_of-eq-sub : (is : List Issue) → score_of is ≡ 100 - penalty_of is
unfolding score_of
score_of-eq-sub is = score_loop 100 is

compatible_by_counts :
    (c h : ℕ) (is : List Issue)
    → penalty_of is ≡ 30 * c + 20 * h
    → count_if is_blocking_critical is ≡ c
    → (leb 50 (score_of is) && not (any is_blocking_critical is)) ≡ (c == 0) && leb h 2
compatible_by_counts c h is p q = ground (arith, score_of-eq-sub is, any-eq-count is)

abbrev blank : Counter → Report
blank metric = record { issues = []; unsupported = metric }

module _ (vm : VmSummary) (metric : Counter) where
  -- The score is 1.00 less 0.30 for each critical and 0.20 for each high blocking fact of the VM,
  -- and 0 where these come to more.
  pub evaluate_score :
      (evaluate vm metric).0.score ≡ 100 - (30 * critical_blockers vm + 20 * high_blockers vm)
  unfolding evaluate result_of penalty penalty_of
  evaluate_score =
      let added = run_checks-Adds vm (blank metric) in
      omega (arith, score_of-eq-sub (run_checks vm (blank metric)).issues, added.weighed)

  -- A VM is compatible exactly if no critical fact holds of it, and at most two high ones.
  pub evaluate_compatible :
      (evaluate vm metric).0.compatible ≡ (critical_blockers vm == 0) && leb (high_blockers vm) 2
  unfolding evaluate result_of criticals penalty penalty_of
  evaluate_compatible =
      let added = run_checks-Adds vm (blank metric) in
      compatible_by_counts (critical_blockers vm) (high_blockers vm) _
        (omega (arith, added.weighed)) (omega (arith, added.critical))
