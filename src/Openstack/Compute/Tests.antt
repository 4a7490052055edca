-- ===== src/Openstack/Compute/Tests.antt =====
-- ComputeService on concrete inputs, with the memory backend as its cache.
use v_machine.Cache.Memory.{backend}
use v_machine.Cache.Memory.Laws.{laws}
use v_machine.Openstack.Compute.{create_server, delete_server, attach_volume, detach_volume}
use v_machine.Openstack.Compute.Freshness.{Refreshed, mutations_refresh}
use v_machine.Openstack.Compute.Samples.{cloud, world, request}

mutations_refresh_example :
    Refreshed cloud backend 100 world (create_server cloud backend 100 request world)
    × Refreshed cloud backend 100 world (delete_server cloud backend 100 "s1" world)
    × Refreshed cloud backend 100 world (attach_volume cloud backend 100 "s1" "v1" world)
    × Refreshed cloud backend 100 world (detach_volume cloud backend 100 "s1" "v1" world)
mutations_refresh_example =
    mutations_refresh cloud backend 100 (λ s. Unit) laws request "s1" "v1" world tt
