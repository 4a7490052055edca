-- ===== src/Endpoints/Repeated.antt =====
-- app/api/v1/endpoints/vmware/assessment.py: the loop over the VMs of a request, from the first lookup on,
-- after which the cache answers.
use mathlib.Core.Path.{subst}
use v_machine.Prelude.{
  ℕ, ◌+◌, ◌<◌, arith, ◌≡◌, refl, sym, ap, ◌∙◌, String, Option, none, some, List, [], ◌∷◌, map, Bool,
}
use v_machine.Prelude.Exec.{Result, ok, raise, Exec, pure, ◌>>=◌}
use v_machine.Prelude.Ends.{Ends, Ends-imp, always_Ends, bind-Ends, weaken_Ends}
use v_machine.Openstack.Server.{Exception}
use v_machine.Vmware.Inventory.{VmSummary}
use v_machine.Vmware.Compatibility as Compatibility
use v_machine.Vmware.Mapping.Flavor.{Floats}
use v_machine.Vmware.Mapping.Resources.{Openstack, Engine}
use v_machine.Vmware.Mapping.Resources as Mapping
use v_machine.Vmware.Parallel.{map_if}
use v_machine.Vmware.Factory.{Vsphere, VcenterWorld}
use v_machine.Vmware.Discovery.{Inventory, vm_of}
use v_machine.Vmware.Discovery.Once.{Known, get_vm-Known}
use v_machine.Endpoints.Vmware.{
  converted, of_failure, of_mapping, AssessmentResult, AssessmentWorld, found_vm, evaluate, mapped,
  assess_vm, each_found, for_each,
}

-- the VMs of a request, in its order
unfoldable pub requested : List String → List VmSummary → List VmSummary
requested [] items = []
requested (vm_id ∷ ids) items = elim (vm_of vm_id items) [
  | none ↦ requested ids items
  | some vm ↦ vm ∷ requested ids items
]

-- the time that passes until the last of these lookups, where `pause ids` passes before the one after
-- which `ids` are left
unfoldable pub elapsed : (List String → ℕ) → List String → ℕ
elapsed pause [] = 0
elapsed pause (vm_id ∷ ids) = pause ids + elapsed pause ids

-- a call of a part of the world: `g` puts the part back
pub converted_Ends :
    {E A S T : Type 0} (f : E → Exception) (g : S → T) (Q : A → T → Type 0) (R : T → Type 0)
    (r : Result E A) (s : S)
    → Ends (λ a t. Q a (g t)) (λ e t. R (g t)) r s
    → Ends Q (λ e t. R t) (converted f r) (g s)
unfolding converted
converted_Ends f g Q R (ok a) s h = h
converted_Ends f g Q R (raise e) s h = h

-- what tells of which VM an assessment is
abbrev pub of_vm : {F : Type 0} → AssessmentResult F → String × String
of_vm a = (a.vm_id, a.vm_name)

abbrev pub as_vm : VmSummary → String × String
as_vm vm = (vm.id, vm.name)

module _ (fl : Floats) (os : Openstack) (vsphere : Vsphere) {Float : Type 0} (to_gb : ℕ → Float)
    (none_gb : Float) where
  abbrev V : Type 0
  V = AssessmentWorld Float

  mapped_Ends :
      {A : Type 0} (m : Exec Mapping.Error Engine A) (w : V)
      → let out = mapped fl os vsphere to_gb none_gb m w in
        Ends (λ a w'. w'.vcenter ≡ w.vcenter) (λ e w'. w'.vcenter ≡ w.vcenter) out.0 out.1
  unfolding mapped
  mapped_Ends m w =
      let (r, engine) = m w.engine in
      let g : Engine → V = λ left. record w { engine = left } in
      converted_Ends of_mapping g (λ a w'. w'.vcenter ≡ w.vcenter) (λ w'. w'.vcenter ≡ w.vcenter) r
        engine (always_Ends (λ left. (g left).vcenter ≡ w.vcenter) r engine refl)

  assess_vm_Ends :
      (include_mapping : Bool) (vm : VmSummary) (w : V)
      → let out = assess_vm fl os vsphere to_gb none_gb include_mapping vm w in
        Ends
          (λ a w'. (of_vm a ≡ as_vm vm) × (w'.vcenter ≡ w.vcenter))
          (λ e w'. w'.vcenter ≡ w.vcenter)
          out.0
          out.1
  unfolding assess_vm evaluate
  assess_vm_Ends include_mapping vm w =
      let (r, unsupported) = Compatibility.evaluate vm w.unsupported in
      let v = record w { unsupported = unsupported } in
      bind-Ends (λ m w'. w'.vcenter ≡ w.vcenter)
        (λ a w'. (of_vm a ≡ as_vm vm) × (w'.vcenter ≡ w.vcenter)) (λ e w'. w'.vcenter ≡ w.vcenter)
        (mapped fl os vsphere to_gb none_gb (map_if fl include_mapping os vm))
        (λ m. pure (record { vm_id = vm.id; vm_name = vm.name; compatibility = r; mapping = m })) v
        (mapped_Ends (map_if fl include_mapping os vm) v) (λ m w' q. (refl, q))

  -- the loop, where the cache answers
  abbrev pub Given : List String → List VmSummary → V → List (AssessmentResult fl.F) → V → Type 0
  Given ids items w found w' =
      (map of_vm found ≡ map as_vm (requested ids items)) × (w'.vcenter.views ≡ w.vcenter.views)

  abbrev pub Spent : V → Exception → V → Type 0
  Spent w e w' = w'.vcenter.views ≡ w.vcenter.views

  module _ (pause : List String → ℕ) (include_mapping : Bool) where
    abbrev pub body : VmSummary → V → Result Exception (AssessmentResult fl.F) × V
    body = assess_vm fl os vsphere to_gb none_gb include_mapping

    abbrev pub loop : List String → V → Result Exception (List (AssessmentResult fl.F)) × V
    loop = for_each fl os vsphere to_gb none_gb pause body

    module _ (items : List VmSummary) (expiry : ℕ) where
      -- the cache answers until after the last lookup
      abbrev pub Live : List String → VcenterWorld (Inventory Float) → Type 0
      Live ids v =
          Known to_gb none_gb vsphere items expiry v × (v.clock + elapsed pause ids < expiry)

      abbrev pub Loops : List String → V → Type 0
      Loops ids w =
          Live ids w.vcenter → Ends (Given ids items w) (Spent w) (loop ids w).0 (loop ids w).1

      abbrev pub vms_of : List String → Option VmSummary → List VmSummary
      vms_of ids o = elim o [ none ↦ requested ids items | some vm ↦ vm ∷ requested ids items ]

      pub each_Ends :
          (ids : List String) (o : Option VmSummary) (w : V)
          → ((w' : V) → Loops ids w')
          → Live ids w.vcenter
          → let out = each_found fl os vsphere to_gb none_gb body (loop ids) o w in
            Ends
              (λ found w'.
                (map of_vm found ≡ map as_vm (vms_of ids o)) × (w'.vcenter.views ≡ w.vcenter.views))
              (Spent w)
              out.0
              out.1
      unfolding each_found
      each_Ends ids none w rest h = rest w h
      each_Ends ids (some vm) w rest h =
          let Goal = λ (found : List (AssessmentResult fl.F)) (w' : V).
            (map of_vm found ≡ map as_vm (vm ∷ requested ids items))
            × (w'.vcenter.views ≡ w.vcenter.views) in
          bind-Ends (λ a w'. (of_vm a ≡ as_vm vm) × (w'.vcenter ≡ w.vcenter)) Goal (Spent w)
            (body vm) (λ a. loop ids >>= λ found. pure (a ∷ found)) w
            (weaken_Ends (λ a w'. (of_vm a ≡ as_vm vm) × (w'.vcenter ≡ w.vcenter))
              (λ e w'. w'.vcenter ≡ w.vcenter) (Spent w) (body vm w).0 (body vm w).1
              (λ e w' q. ap (λ v. v.views) q) (assess_vm_Ends include_mapping vm w))
            (λ a w' q.
              bind-Ends (Given ids items w') Goal (Spent w) (loop ids) (λ found. pure (a ∷ found))
                w'
                (weaken_Ends (Given ids items w') (Spent w') (Spent w) (loop ids w').0
                  (loop ids w').1 (λ e w'' k. k ∙ ap (λ v. v.views) q.1)
                  (rest w' (subst (Live ids) (sym q.1) h)))
                (λ found w'' k. (cc (q.0, k.0), k.1 ∙ ap (λ v. v.views) q.1)))

      -- the lookup of the next VM
      abbrev pub Next : String → List String → V → Option VmSummary → V → Type 0
      Next vm_id ids w o w' =
          (o ≡ vm_of vm_id items) × (Live ids w'.vcenter × (w'.vcenter.views ≡ w.vcenter.views))

      found_vm_Ends :
          (vm_id : String) (ids : List String) (w : V)
          → Live (vm_id ∷ ids) w.vcenter
          → let out = found_vm fl os vsphere to_gb none_gb (pause ids) vm_id w in
            Ends (Next vm_id ids w) (Spent w) out.0 out.1
      unfolding found_vm converted elapsed
      found_vm_Ends vm_id ids w h =
          let later = record w.vcenter { clock = w.vcenter.clock + pause ids } in
          let e =
            get_vm-Known to_gb none_gb vsphere vm_id items expiry later h.0 (omega (arith, h.1)) in
          subst
            (λ x.
              Ends (Next vm_id ids w) (Spent w) (converted of_failure x.0)
                (record w { vcenter = x.1 }))
            (sym e.0) (refl, ((e.1, omega (arith, h.1)), refl))

      pub loop_Ends : (ids : List String) (w : V) → Loops ids w
      unfolding for_each requested
      loop_Ends [] w h = (refl, refl)
      loop_Ends (vm_id ∷ ids) w h =
          bind-Ends (Next vm_id ids w) (Given (vm_id ∷ ids) items w) (Spent w)
            (found_vm fl os vsphere to_gb none_gb (pause ids) vm_id)
            (λ o. each_found fl os vsphere to_gb none_gb body (loop ids) o) w
            (found_vm_Ends vm_id ids w h)
            (λ o w' q.
              let Q = λ (o' : Option VmSummary) (found : List (AssessmentResult fl.F)) (w'' : V).
                (map of_vm found ≡ map as_vm (vms_of ids o'))
                × (w''.vcenter.views ≡ w'.vcenter.views) in
              let out = each_found fl os vsphere to_gb none_gb body (loop ids) o w' in
              Ends-imp (Q o) (Given (vm_id ∷ ids) items w) (Spent w') (Spent w) out.0 out.1
                (λ found w'' k. (k.0 ∙ ap (λ o'. map as_vm (vms_of ids o')) q.0, k.1 ∙ q.1.1))
                (λ e w'' k. k ∙ q.1.1) (each_Ends ids o w' (loop_Ends ids) q.1.0))
