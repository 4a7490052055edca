-- ===== src/Cache/Memory.antt =====
-- app/common/utils/openstack_cache.py, MemoryCacheBackend: one TTLCache for each resource, with the
-- counters that they share. `now` is what a call reads of the clock.
pub mod Laws
mod Tests
use v_machine.Prelude.{ℕ, String, Option, none, some, List, [], ◌∷◌, map}
use v_machine.Prelude.Dict.{Dict, lookup, insert}
use v_machine.Cache as Ttl
use v_machine.Cache.{TtlCache, Metrics, Snapshot, collect_cache_metrics}
use v_machine.Cache.Backend.{Backend}

pub record MemoryCacheBackend (V : Type 0) : Type 0 where
  pub stores : Dict (TtlCache V)
  pub metrics : Metrics

-- the TTLCache of a resource, with the shared counters
abbrev pub with_metrics : {V : Type 0} → Metrics → TtlCache V → TtlCache V
with_metrics metrics c = record c { metrics = metrics }

module _ {V : Type 0} where
  -- a call of a TTLCache that changes it
  abbrev pub put_back : String → TtlCache V → MemoryCacheBackend V → MemoryCacheBackend V
  put_back resource c b = record { stores = insert resource c b.stores; metrics = c.metrics }

  unfoldable pub init : Metrics → Dict ℕ → MemoryCacheBackend V
  init metrics [] = record { stores = []; metrics = metrics }
  init metrics ((resource, ttl) ∷ ttls) =
      let b = init metrics ttls in
      record b {
        stores =
            (resource, record { ttl = ttl; name = resource; store = []; metrics = metrics })
            ∷ b.stores;
      }

  unfoldable pub get : String → ℕ → MemoryCacheBackend V → Option V × MemoryCacheBackend V
  get resource now b = elim (lookup resource b.stores) [
    | none ↦ (none, b)
    | some store ↦
        let (value, c) = Ttl.get resource now (with_metrics b.metrics store) in
        (value, put_back resource c b)
  ]

  unfoldable pub set : String → V → ℕ → MemoryCacheBackend V → MemoryCacheBackend V
  set resource value now b = elim (lookup resource b.stores) [
    | none ↦ b
    | some store ↦ put_back resource (Ttl.set resource value now (with_metrics b.metrics store)) b
  ]

  unfoldable pub invalidate : String → MemoryCacheBackend V → MemoryCacheBackend V
  invalidate resource b = elim (lookup resource b.stores) [
    | none ↦ b
    | some store ↦ put_back resource (Ttl.invalidate_all (with_metrics b.metrics store)) b
  ]

  invalidate_each : Dict (TtlCache V) → MemoryCacheBackend V → MemoryCacheBackend V
  invalidate_each [] b = b
  invalidate_each ((resource, c) ∷ stores) b =
      let c' = Ttl.invalidate_all (with_metrics b.metrics c) in
      invalidate_each stores (put_back resource c' b)

  unfoldable pub invalidate_all : MemoryCacheBackend V → MemoryCacheBackend V
  unfolding invalidate_each
  invalidate_all b = invalidate_each b.stores b

  abbrev pub collect_metrics : MemoryCacheBackend V → Snapshot
  collect_metrics b = collect_cache_metrics b.metrics

  -- how long a resource is stored for
  unfoldable pub ttl_of : String → MemoryCacheBackend V → Option ℕ
  ttl_of resource b = elim (lookup resource b.stores) [ none ↦ none | some c ↦ some c.ttl ]

  abbrev pub backend : Backend V
  backend = record {
    State = MemoryCacheBackend V;
    get = get;
    set = set;
    invalidate = invalidate;
    ttl = ttl_of;
    kept = λ v. v;
  }
