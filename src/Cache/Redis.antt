-- ===== src/Cache/Redis.antt =====
-- app/common/utils/redis_cache.py, RedisCache: OpenStack's lists in Redis. The Redis client and
-- Python's json are parameters. `now` is the time of a call; a RedisError is swallowed, as in the
-- source, and latencies are what the client needs.
pub mod Reads
pub mod Laws
mod Tests
use v_machine.Prelude.{
  zero, suc, ℕ, ◌+◌, ◌-◌, String, Bool, true, false, Option, none, some, List, [], ◌∷◌, ◌++◌, ltb,
  length, if◌then◌else◌,
}
use v_machine.Prelude.Text.{f_string}
use v_machine.Prelude.Dict.{Dict, Counter, get_or, incr, total}
use v_machine.Cache.{Metrics, Snapshot, collect_cache_metrics}
use v_machine.Cache.Backend.{Backend}

-- What a call of the client gives: none where it raises RedisError.
pub record RedisClient : Type 1 where
  pub Store : Type 0
  pub get : String → ℕ → Store → Option (Option String)
  pub setex : String → ℕ → String → ℕ → Store → Bool × Store
  pub delete : String → Store → Bool × Store
  pub latency : Store → ℕ

-- json.dumps with the default of `_serialize`, and json.loads
pub record Json (V : Type 0) : Type 0 where
  pub dumps : V → String
  pub loads : String → V

pub record RedisCache (Store : Type 0) : Type 0 where
  pub project : String
  pub store : Store
  pub ttls : Dict ℕ
  pub metrics : Metrics
  pub errors : ℕ
  pub latencies : List ℕ

unfoldable pub drop : ℕ → List ℕ → List ℕ
drop zero xs = xs
drop (suc n) [] = []
drop (suc n) (x ∷ xs) = drop n xs

module _ {Store : Type 0} where
  abbrev pub key_of : String → RedisCache Store → String
  key_of resource c = f_string ("okastro" ∷ ":" ∷ c.project ∷ ":" ∷ resource ∷ [])

  -- DEFAULT_TTLS.get(resource, 30)
  abbrev pub ttl_for : String → RedisCache Store → ℕ
  ttl_for resource c = get_or resource c.ttls 30

  abbrev pub count_hit : String → RedisCache Store → RedisCache Store
  count_hit resource c = record c {
    metrics = record c.metrics { hits = incr resource c.metrics.hits };
  }

  abbrev pub count_miss : String → RedisCache Store → RedisCache Store
  count_miss resource c = record c {
    metrics = record c.metrics { misses = incr resource c.metrics.misses };
  }

  abbrev pub count_invalidation : String → RedisCache Store → RedisCache Store
  count_invalidation resource c = record c {
    metrics = record c.metrics { invalidations = incr resource c.metrics.invalidations };
  }

  abbrev pub count_error : RedisCache Store → RedisCache Store
  count_error c = record c { errors = c.errors + 1 }

  -- the last 500 of more than 1000
  unfoldable pub record_latency : ℕ → RedisCache Store → RedisCache Store
  record_latency seconds c =
      let latencies = c.latencies ++ seconds ∷ [] in
      record c {
        latencies =
            if ltb 1000 (length latencies)
            then drop (length latencies - 500) latencies
            else latencies;
      }

  -- the snapshot, and the fields of Redis
  abbrev pub collect_metrics : RedisCache Store → Snapshot × (ℕ × List ℕ)
  collect_metrics c = (collect_cache_metrics c.metrics, (c.errors, c.latencies))

module _ {V : Type 0} (client : RedisClient) (json : Json V) where
  abbrev pub Cached : Type 0
  Cached = RedisCache client.Store

  unfoldable pub get : String → ℕ → Cached → Option V × Cached
  get resource now c = elim (client.get (key_of resource c) now c.store) [
    | none ↦ (none, count_error (count_miss resource c))
    | some raw ↦
        let c' = record_latency (client.latency c.store) c in
        elim raw [
          | none ↦ (none, count_miss resource c')
          | some text ↦ (some (json.loads text), count_hit resource c')
        ]
  ]

  unfoldable pub set : String → V → ℕ → Cached → Cached
  set resource value now c =
      let (done, store) =
        client.setex (key_of resource c) (ttl_for resource c) (json.dumps value) now c.store in
      let c' = record c { store = store } in
      if done then record_latency (client.latency c.store) c' else count_error c'

  unfoldable pub invalidate : String → Cached → Cached
  invalidate resource c =
      let (done, store) = client.delete (key_of resource c) c.store in
      let c' = record c { store = store } in
      count_invalidation resource
        (if done then record_latency (client.latency c.store) c' else count_error c')

  unfoldable pub invalidate_all : Cached → Cached
  invalidate_all c =
      invalidate "volumes" (invalidate "networks" (invalidate "images" (invalidate "servers" c)))

  abbrev pub backend : Backend V
  backend = record {
    State = Cached;
    get = get;
    set = set;
    invalidate = invalidate;
    ttl = λ resource c. some (ttl_for resource c);
    kept = λ v. json.loads (json.dumps v);
  }
