-- ===== src/Vmware/Plan/Sort.antt =====
-- plan_vms.sort(key=lambda pvm: (pvm.priority, pvm.vm_name)): Python's sort is stable, as this
-- insertion sort is.
use v_machine.Prelude.{Bool, List, [], ◌∷◌, ltb, ◌==◌, ◌||◌, ◌&&◌, if◌then◌else◌}
use v_machine.Prelude.Text.{text_leb}
use v_machine.Vmware.Assessment.{PlanVm}

-- (a.priority, a.vm_name) <= (b.priority, b.vm_name)
abbrev pub key_leb : PlanVm → PlanVm → Bool
key_leb a b =
    ltb a.priority b.priority || (a.priority == b.priority && text_leb a.vm_name b.vm_name)

unfoldable pub insert : PlanVm → List PlanVm → List PlanVm
insert p [] = p ∷ []
insert p (q ∷ qs) = if key_leb p q then p ∷ q ∷ qs else q ∷ insert p qs

unfoldable pub sort : List PlanVm → List PlanVm
sort [] = []
sort (p ∷ ps) = insert p (sort ps)
