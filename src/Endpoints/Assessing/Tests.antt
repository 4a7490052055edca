-- ===== src/Endpoints/Assessing/Tests.antt =====
-- An assessment of two ids, one of which names a VM, with a table of one task.
use v_machine.Prelude.{ℕ, ◌<◌, String, List, none, [], ◌∷◌, arith, refl}
use v_machine.Prelude.Ends.{Ends}
use v_machine.Prelude.Exec.{ok}
use v_machine.Database.Single.{single, single-IsTable}
use v_machine.Openstack.Server.{Exception}
use v_machine.Orchestration.Tasks.{OperationTask}
use v_machine.Vmware.Mapping.Resources.{Openstack}
use v_machine.Vmware.Mapping.Samples.{thousandths}
use v_machine.Vmware.Discovery.Samples.{vsphere, to_gb, world}
use v_machine.Endpoints.Vmware.{AssessmentWorld, assess_vms}
use v_machine.Endpoints.Repeated.{elapsed}
use v_machine.Endpoints.Assessing.{Assessed, after_first, IsBalanced, AtMostOne, assess_vms_lem}

abbrev text : Exception → String
text e = "ValueError"

abbrev os : Openstack
os = record { flavors = ok []; networks = ok [] }

abbrev services : AssessmentWorld ℕ
services = record {
  vcenter = world;
  engine = record { flavor_cache = none; network_cache = none; observed = [] };
  unsupported = [];
}

after : after_first (λ left. 100) ("vm-1" ∷ "vm-9" ∷ []) < 300
unfolding elapsed
after = omega arith

assess_vms_lem_example :
    let ids : List String = "vm-1" ∷ "vm-9" ∷ [] in
    let out =
      assess_vms thousandths os vsphere to_gb 0
        (single OperationTask)
        text
        (λ left. 100)
        ids
        (none, services) in
    Ends
      (λ response st.
        Assessed thousandths os vsphere to_gb 0 ids services response.assessments st.1
        × IsBalanced response)
      (λ e st. AtMostOne thousandths os vsphere to_gb 0 services st.1)
      out.0
      out.1
assess_vms_lem_example =
    assess_vms_lem thousandths os vsphere to_gb 0 (single OperationTask)
      (single-IsTable OperationTask) text (λ left. 100) ("vm-1" ∷ "vm-9" ∷ []) none services refl
      after
