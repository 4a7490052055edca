-- ===== src/Endpoints/Tests.antt =====
-- Requests on concrete inputs, with a table of one task.
use v_machine.Prelude.{String, none}
use v_machine.Prelude.Ends.{Ends}
use v_machine.Cache.Memory.{backend}
use v_machine.Database.Single.{single, single-IsTable}
use v_machine.Openstack.Server.{Exception}
use v_machine.Openstack.Compute.Samples.{cloud, world, request}
use v_machine.Orchestration.Tasks.{OperationTask}
use v_machine.Endpoints.Tracking.{tracked}
use v_machine.Endpoints.Settled.{Done, Raised, tracked-Settles}
use v_machine.Endpoints.Compute.{server_creation}

abbrev text : Exception → String
text e = "AttributeError"

tracked-Settles_example :
    let db = single OperationTask in
    let table = single-IsTable OperationTask in
    let job = server_creation db text cloud backend 100 request in
    let out = tracked db text (λ w. w.clock) job (none, world) in
    Ends
      (λ b st. Done db table text (λ w. w.clock) job none world b st.0 st.1)
      (λ x st. Raised db table text (λ w. w.clock) job none world x st.0 st.1)
      out.0
      out.1
tracked-Settles_example =
    tracked-Settles (single OperationTask) (single-IsTable OperationTask) text (λ w. w.clock)
      (server_creation (single OperationTask) text cloud backend 100 request) none world
