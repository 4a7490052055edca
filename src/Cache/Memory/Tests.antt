-- ===== src/Cache/Memory/Tests.antt =====
-- MemoryCacheBackend on concrete inputs.
use v_machine.Prelude.{ℕ, ◌≡◌, List, [], ◌∷◌}
use v_machine.Cache.Backend.{Op, got, stored, dropped, read, run, replay}
use v_machine.Cache.Memory.{MemoryCacheBackend, init, ttl_of, backend}
use v_machine.Cache.Memory.Laws.{memory_refines}

abbrev two_resources : MemoryCacheBackend ℕ
two_resources =
    init (record { hits = []; misses = []; invalidations = [] })
      (("servers", 5) ∷ ("images", 30) ∷ [])

abbrev calls : List (Op ℕ)
calls =
    stored 1 "servers" 7
    ∷ got 3 "servers"
    ∷ stored 1 "routers" 9
    ∷ got 0 "routers"
    ∷ got 4 "servers"
    ∷ dropped 1 "servers"
    ∷ got 0 "servers"
    ∷ []

memory_refines_example :
    run backend calls 100 two_resources
    ≡ replay
        (λ r. ttl_of r two_resources)
        (λ v. v)
        calls
        100
        (λ r t. read backend r t two_resources)
memory_refines_example = memory_refines calls 100 two_resources
