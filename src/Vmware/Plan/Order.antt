-- ===== src/Vmware/Plan/Order.antt =====
-- The order of a plan: by priority, then by name.
use Prim.Native.String.compare as text_compare
use mathlib.Core.List.{Perm}
use mathlib.Core.List.Perm
use v_machine.Prelude.{
  ◌≡◌, ◌<◌, refl, ◌⊎◌, inl, inr, String, true, false, List, [], ◌∷◌, Bool-cases, arith,
}
use v_machine.Prelude.Text.{text_leb}
use v_machine.Vmware.Assessment.{PlanVm}
use v_machine.Vmware.Plan.Sort.{key_leb, insert, sort}

-- Of two texts one is at most the other.
text_leb_total : (s t : String) → text_leb s t ≡ false → text_leb t s ≡ true
text_leb_total String.[] String.[] h = refl
text_leb_total String.[] (String.◌∷◌ d t) h = ground (arith, text_compare.nil-cons d t)
text_leb_total (String.◌∷◌ c s) String.[] h = ground (arith, text_compare.nil-cons c s)
text_leb_total (String.◌∷◌ c s) (String.◌∷◌ d t) h =
    ground
      (arith, text_compare.cons-cons c d s t, text_compare.cons-cons d c t s, text_leb_total s t)

key_leb_total : (a b : PlanVm) → key_leb a b ≡ false → key_leb b a ≡ true
key_leb_total a b h = ground (arith, text_leb_total a.vm_name b.vm_name)

-- `a` may stand before `b`: its priority is smaller, or the same with a name that is not larger.
abbrev pub Before : PlanVm → PlanVm → Type 0
Before a b =
    (a.priority < b.priority) ⊎ (a.priority ≡ b.priority) × (text_leb a.vm_name b.vm_name ≡ true)

abbrev pub IsSorted : List PlanVm → Type 0
IsSorted [] = Unit
IsSorted (p ∷ []) = Unit
IsSorted (p ∷ q ∷ ps) = Before p q × IsSorted (q ∷ ps)

key_leb-Before : (a b : PlanVm) → key_leb a b ≡ true → Before a b
key_leb-Before a b h = ground arith

insert-IsSorted : (p : PlanVm) (ps : List PlanVm) → IsSorted ps → IsSorted (insert p ps)
unfolding insert
insert-IsSorted p [] h = tt
insert-IsSorted p (q ∷ []) h = elim (Bool-cases (key_leb p q)) [
  | inl l ↦ rw l (key_leb-Before p q l, tt)
  | inr l ↦ rw l (key_leb-Before q p (key_leb_total p q l), tt)
]
insert-IsSorted p (q ∷ r ∷ ps) h = elim (Bool-cases (key_leb p q)) [
  | inl l ↦ rw l (key_leb-Before p q l, h)
  | inr l ↦ elim (Bool-cases (key_leb p r)) [
    | inl k ↦ rw (l, k) (key_leb-Before q p (key_leb_total p q l), (key_leb-Before p r k, h.1))
    | inr k ↦ rw (l, k) (h.0, rw (k, insert) at (insert-IsSorted p (r ∷ ps) h.1))
  ]
]

pub sort-IsSorted : (ps : List PlanVm) → IsSorted (sort ps)
unfolding sort
sort-IsSorted [] = tt
sort-IsSorted (p ∷ ps) = insert-IsSorted p (sort ps) (sort-IsSorted ps)

insert-perm : (p : PlanVm) (ps : List PlanVm) → Perm (insert p ps) (p ∷ ps)
unfolding insert
insert-perm p [] = Perm.refl _
insert-perm p (q ∷ ps) = elim (Bool-cases (key_leb p q)) [
  | inl h ↦ rw h (Perm.refl _)
  | inr h ↦ rw h (Perm.trans (Perm.cons q (insert-perm p ps)) (Perm.swap _ _ _))
]

pub sort-perm : (ps : List PlanVm) → Perm (sort ps) ps
unfolding sort
sort-perm [] = Perm.refl _
sort-perm (p ∷ ps) = Perm.trans (insert-perm p (sort ps)) (Perm.cons p (sort-perm ps))
