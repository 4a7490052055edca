-- ===== src/Cache/Dispatch.antt =====
-- app/common/utils/openstack_cache.py: the backend that is chosen at startup, and the functions that
-- the services call. The module's globals are the `Globals`; logging is left out.
use v_machine.Prelude.{
  ℕ, String, Option, none, some, List, [], ◌∷◌, ◌&&◌, not, map, str_eq, if◌then◌else◌,
}
use v_machine.Prelude.Dict.{Dict, insert, get_or}
use v_machine.Cache as Ttl
use v_machine.Cache.{Metrics, Snapshot, TtlCache, collect_cache_metrics}
use v_machine.Cache.Memory as Memory
use v_machine.Cache.Memory.{MemoryCacheBackend}
use v_machine.Cache.Redis as Redis
use v_machine.Cache.Redis.{RedisClient, Json, RedisCache}

-- DEFAULT_TTLS
abbrev pub default_ttls : Dict ℕ
default_ttls = ("servers", 5) ∷ ("images", 30) ∷ ("networks", 30) ∷ ("volumes", 10) ∷ []

-- app/core/config/settings.py: the fields read here; `none` is an absent setting
pub record CacheSettings : Type 0 where
  pub cache_backend : String
  pub redis_url : String
  pub openstack_project_name : String
  pub cache_ttl : String → Option ℕ

abbrev pub resources : List String
resources = "servers" ∷ "images" ∷ "networks" ∷ "volumes" ∷ []

abbrev pub get_ttl : String → Dict ℕ → ℕ
get_ttl resource ttls = get_or resource ttls 30

-- the loop of configure_from_settings
unfoldable pub configured_ttls : CacheSettings → List String → Dict ℕ → Dict ℕ
configured_ttls settings [] ttls = ttls
configured_ttls settings (resource ∷ rest) ttls =
    configured_ttls settings rest
      (elim (settings.cache_ttl resource) [ none ↦ ttls | some ttl ↦ insert resource ttl ttls ])

-- what get_cache_status tells
pub record CacheStatus : Type 0 where
  pub backend_name : String
  pub ttls : Dict ℕ
  pub sizes : Option (Dict (ℕ × ℕ))

module _ {V : Type 0} (client : RedisClient) (json : Json V) where
  pub data CacheBackend : Type 0 where
    unset : CacheBackend
    memory : MemoryCacheBackend V → CacheBackend
    redis : RedisCache client.Store → CacheBackend

  pub record Globals : Type 0 where
    pub ttls : Dict ℕ
    pub metrics : Metrics
    pub chosen : CacheBackend

  -- DEFAULT_TTLS[resource] = ttl_seconds. RedisCache reads the global at each write, and so has the
  -- change too; the caches of MemoryCacheBackend keep the time that they were made with.
  unfoldable pub set_ttl : String → ℕ → Globals → Globals
  set_ttl resource ttl_seconds g =
      let ttls = insert resource ttl_seconds g.ttls in
      elim g.chosen [
        | redis c ↦ record g { ttls = ttls; chosen = redis (record c { ttls = ttls }) }
        | _ ↦ record g { ttls = ttls }
      ]

  -- RedisCache(redis_url, project_name); `connects` is the store behind a URL that answers a ping
  unfoldable pub connect_redis :
      (String → Option client.Store) → String → String → Dict ℕ → Option (RedisCache client.Store)
  connect_redis connects redis_url project_name ttls = elim (connects redis_url) [
    | none ↦ none
    | some store ↦ some (record {
      project = project_name;
      store = store;
      ttls = ttls;
      metrics = record { hits = []; misses = []; invalidations = [] };
      errors = 0;
      latencies = [];
    })
  ]

  unfoldable pub init_cache_backend :
      (String → Option client.Store) → String → String → String → Globals → Globals
  init_cache_backend connects backend redis_url project_name g =
      let in_memory = record g { chosen = memory (Memory.init g.metrics g.ttls) } in
      if str_eq backend "redis" && not (str_eq redis_url "")
      then elim (connect_redis connects redis_url project_name g.ttls) [
        | some c ↦ record g { chosen = redis c }
        | none ↦ in_memory
      ]
      else in_memory

  unfoldable pub configure_from_settings :
      (String → Option client.Store) → CacheSettings → Globals → Globals
  configure_from_settings connects settings g =
      init_cache_backend connects settings.cache_backend settings.redis_url
        settings.openstack_project_name
        (record g { ttls = configured_ttls settings resources g.ttls })

  unfoldable pub cache_get : String → ℕ → CacheBackend → Option V × CacheBackend
  cache_get resource now unset = (none, unset)
  cache_get resource now (memory b) = let (v, b') = Memory.get resource now b in (v, memory b')
  cache_get resource now (redis c) =
      let (v, c') = Redis.get client json resource now c in (v, redis c')

  unfoldable pub cache_set : String → V → ℕ → CacheBackend → CacheBackend
  cache_set resource value now unset = unset
  cache_set resource value now (memory b) = memory (Memory.set resource value now b)
  cache_set resource value now (redis c) = redis (Redis.set client json resource value now c)

  unfoldable pub cache_invalidate : String → CacheBackend → CacheBackend
  cache_invalidate resource unset = unset
  cache_invalidate resource (memory b) = memory (Memory.invalidate resource b)
  cache_invalidate resource (redis c) = redis (Redis.invalidate client json resource c)

  unfoldable pub cache_invalidate_all : CacheBackend → CacheBackend
  cache_invalidate_all b =
      cache_invalidate "volumes"
        (cache_invalidate "networks" (cache_invalidate "images" (cache_invalidate "servers" b)))

  -- the common fields of the snapshot
  unfoldable pub collect_metrics : CacheBackend → Snapshot
  collect_metrics unset =
      collect_cache_metrics (record { hits = []; misses = []; invalidations = [] })
  collect_metrics (memory b) = Memory.collect_metrics b
  collect_metrics (redis c) = (Redis.collect_metrics c).0

  unfoldable pub get_cache_status : Globals → CacheStatus
  get_cache_status g = elim g.chosen [
    | unset ↦ record { backend_name = "memory"; ttls = g.ttls; sizes = none }
    | redis c ↦ record { backend_name = "redis"; ttls = g.ttls; sizes = none }
    | memory b ↦ record {
      backend_name = "memory";
      ttls = g.ttls;
      sizes = some (map (λ e. (e.0, (get_ttl e.0 g.ttls, Ttl.size e.1))) b.stores);
    }
  ]
