-- ===== src/Vmware/Compatibility/Tally.antt =====
-- The weight of a report: what its issues take from the score, and how many are critical.
use v_machine.Prelude.{
  ℕ, zero, suc, ◌+◌, ◌-◌, ◌*◌, ◌≡◌, refl, String, Bool, true, false, not, ◌&&◌, ◌||◌, Option, none,
  some, List, [], ◌∷◌, ◌++◌, leb, ◌==◌, if◌then◌else◌, any, count_if, str_eq, arith, length, sum,
  map, Bool-cases, inl, inr, eq_refl, count_if-append,
}
use mathlib.Core.List.{foldl}
use v_machine.Prelude.Dict.{get_or, lookup}
use v_machine.Vmware.Assessment.{Issue}
use v_machine.Vmware.Compatibility.{score_weights, apply_weight, is_blocking_critical}
use v_machine.Vmware.Compatibility.Report.{Report, add_issue, count_unsupported}

-- What an issue takes from the score.
unfoldable pub weight : Issue → ℕ
unfolding lookup
weight i = if i.compatible then 0 else get_or i.severity score_weights 10

unfoldable pub penalty_of : List Issue → ℕ
penalty_of [] = 0
penalty_of (i ∷ is) = weight i + penalty_of is

unfoldable pub penalty : Report → ℕ
penalty r = penalty_of r.issues

unfoldable pub criticals : Report → ℕ
criticals r = count_if is_blocking_critical r.issues

pub penalty_of-append : (is js : List Issue) → penalty_of (is ++ js) ≡ penalty_of is + penalty_of js
unfolding penalty_of
penalty_of-append [] js = omega arith
penalty_of-append (i ∷ is) js = omega (arith, penalty_of-append is js)

-- The loop of the source stops at 0 in each round; the sum of the weights does so once.
pub score_loop : (s : ℕ) (is : List Issue) → foldl apply_weight s is ≡ s - penalty_of is
unfolding apply_weight penalty_of weight
score_loop s [] = omega arith
score_loop s (i ∷ is) = ground (arith, score_loop (apply_weight s i) is)

pub penalty-add_issue :
    (severity category message : String) (compatible : Bool) (r : Report)
    → penalty (add_issue severity category message compatible r)
      ≡ penalty r + (if compatible then 0 else get_or severity score_weights 10)
unfolding penalty add_issue penalty_of weight
penalty-add_issue s c m b r = rw penalty_of-append (ground arith)

pub criticals-add_issue :
    (severity category message : String) (compatible : Bool) (r : Report)
    → criticals (add_issue severity category message compatible r)
      ≡ criticals r + (if str_eq severity "critical" && not compatible then 1 else 0)
unfolding criticals add_issue
criticals-add_issue s c m b r = rw (count_if-append is_blocking_critical) (ground arith)

pub penalty-count_unsupported :
    (category : String) (r : Report) → penalty (count_unsupported category r) ≡ penalty r
unfolding penalty count_unsupported
penalty-count_unsupported category r = refl

pub criticals-count_unsupported :
    (category : String) (r : Report) → criticals (count_unsupported category r) ≡ criticals r
unfolding criticals count_unsupported
criticals-count_unsupported category r = refl

-- `r'` has `c` critical and `h` high blocking issues more than `r`, and no other blocking issue.
pub record Adds (c h : ℕ) (r r' : Report) : Type 0 where
  pub weighed : penalty r' ≡ penalty r + 30 * c + 20 * h
  pub critical : criticals r' ≡ criticals r + c

pub ruleset tally_laws = (
  arith, penalty-add_issue, criticals-add_issue, penalty-count_unsupported,
  criticals-count_unsupported,
)
