-- ===== src/Cache.antt =====
-- app/common/utils/cache.py: the cache with a time to live, and its counters. The counters are
-- global in the source and part of the state here. Times are natural numbers, and `now` is what
-- the call reads of the clock.
pub mod Keys
pub mod Expiry
pub mod Backend
pub mod Refinement
pub mod Memory
pub mod Redis
pub mod Dispatch
mod Tests
use v_machine.Prelude.{
  ℕ, ◌+◌, String, Bool, Option, none, some, List, [], ◌∷◌, leb, if◌then◌else◌, length,
}
use v_machine.Prelude.Dict.{Dict, lookup, insert, remove, Counter, total, incr}

-- _CacheEntry
pub record Entry (T : Type 0) : Type 0 where
  pub value : T
  pub expires_at : ℕ

pub record Metrics : Type 0 where
  pub hits : Counter
  pub misses : Counter
  pub invalidations : Counter

pub record TtlCache (T : Type 0) : Type 0 where
  pub ttl : ℕ
  pub name : String
  pub store : Dict (Entry T)
  pub metrics : Metrics

-- collect_cache_metrics; the ratio of hits is a fraction, and not rounded
pub record Snapshot : Type 0 where
  pub counters : Metrics
  pub total_hits : ℕ
  pub total_misses : ℕ
  pub total_requests : ℕ
  pub hit_ratio : ℕ × ℕ

abbrev pub collect_cache_metrics : Metrics → Snapshot
collect_cache_metrics metrics =
    let total_hits = total metrics.hits in
    let total_reqs = total_hits + total metrics.misses in
    record {
      counters = metrics;
      total_hits = total_hits;
      total_misses = total metrics.misses;
      total_requests = total_reqs;
      hit_ratio = if leb total_reqs 0 then (0, 1) else (total_hits, total_reqs);
    }

abbrev pub record_invalidation : String → Metrics → Metrics
record_invalidation name metrics = record metrics {
  invalidations = incr name metrics.invalidations;
}

module _ {T : Type 0} where
  abbrev pub is_expired : ℕ → Entry T → Bool
  is_expired now entry = leb entry.expires_at now

  abbrev pub count_miss : TtlCache T → TtlCache T
  count_miss c = record c { metrics = record c.metrics { misses = incr c.name c.metrics.misses } }

  abbrev pub count_hit : TtlCache T → TtlCache T
  count_hit c = record c { metrics = record c.metrics { hits = incr c.name c.metrics.hits } }

  unfoldable pub get : String → ℕ → TtlCache T → Option T × TtlCache T
  get key now c = elim (lookup key c.store) [
    | none ↦ (none, count_miss c)
    | some entry ↦
        if is_expired now entry
        then (none, count_miss (record c { store = remove key c.store }))
        else (some entry.value, count_hit c)
  ]

  unfoldable pub set_ttl : String → T → ℕ → ℕ → TtlCache T → TtlCache T
  set_ttl key value ttl_seconds now c = record c {
    store = insert key (record { value = value; expires_at = now + ttl_seconds }) c.store;
  }

  unfoldable pub set : String → T → ℕ → TtlCache T → TtlCache T
  set key value now c = record c {
    store = insert key (record { value = value; expires_at = now + c.ttl }) c.store;
  }

  unfoldable pub delete : String → TtlCache T → TtlCache T
  delete key c = record c { store = remove key c.store }

  unfoldable pub clear : TtlCache T → TtlCache T
  clear c = record c { store = [] }

  unfoldable pub invalidate_all : TtlCache T → TtlCache T
  invalidate_all c = record c { store = []; metrics = record_invalidation c.name c.metrics }

  abbrev pub size : TtlCache T → ℕ
  size c = length c.store

  unfoldable pub expired_keys : ℕ → Dict (Entry T) → List String
  expired_keys now [] = []
  expired_keys now ((k, v) ∷ d) =
      let keys = expired_keys now d in if is_expired now v then k ∷ keys else keys

  unfoldable pub delete_all : List String → Dict (Entry T) → Dict (Entry T)
  delete_all [] d = d
  delete_all (k ∷ ks) d = delete_all ks (remove k d)

  unfoldable pub evict_expired : ℕ → TtlCache T → ℕ × TtlCache T
  evict_expired now c =
      let keys = expired_keys now c.store in
      (length keys, record c { store = delete_all keys c.store })
