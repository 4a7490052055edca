-- ===== src/Cache/Expiry.antt =====
-- app/common/utils/cache.py: what a read returns and counts, and what an eviction removes.
use v_machine.Prelude.{
  ℕ, ◌+◌, ◌≡◌, refl, String, false, none, some, List, [], ◌∷◌, arith, length, any, ltb, str_eq,
  eq_iff, eq_refl, if◌then◌else◌, is_some,
}
use v_machine.Prelude.Dict.{
  Dict, lookup, remove, lookup-insert, total-incr, total, count_of, count_of-incr,
}
use v_machine.Cache.{
  Entry, TtlCache, is_expired, get, set, expired_keys, delete_all, evict_expired,
  collect_cache_metrics,
}
use v_machine.Cache.Keys.{IsUnique, HasUniqueKeys, remove-absent}

module _ {T : Type 0} where
  -- The entries that have not expired, in their order.
  abbrev pub fresh_only : ℕ → Dict (Entry T) → Dict (Entry T)
  fresh_only now [] = []
  fresh_only now ((k, v) ∷ d) =
      if is_expired now v then fresh_only now d else (k, v) ∷ fresh_only now d

  -- A read counts one request for the name of its cache: a hit if it returns a value and a miss if
  -- it returns none.
  pub get_counts :
      (key : String) (now : ℕ) (c : TtlCache T)
      → let out = get key now c in
        let hit : ℕ = if is_some out.0 then 1 else 0 in
        (total out.1.metrics.hits ≡ total c.metrics.hits + hit)
        × ((collect_cache_metrics out.1.metrics).total_requests
            ≡ (collect_cache_metrics c.metrics).total_requests + 1)
        × (count_of c.name out.1.metrics.hits ≡ count_of c.name c.metrics.hits + hit)
  unfolding get
  get_counts key now c = ground (
    arith,
    total-incr c.name c.metrics.hits,
    total-incr c.name c.metrics.misses,
    count_of-incr c.name c.name c.metrics.hits,
    eq_refl c.name,
  )

  -- A value that was stored at `stored` is what a read of its key returns as long as less than the
  -- cache's time to live has passed, and no longer; a read of another key returns what it returned
  -- before.
  pub get-set :
      (key other : String) (value : T) (stored now : ℕ) (c : TtlCache T)
      → (get other now (set key value stored c)).0 ≡ (
          if str_eq key other
          then (if ltb now (stored + c.ttl) then some value else none)
          else (get other now c).0)
  unfolding get set
  get-set key other value stored now c =
      let entry : Entry T = record { value = value; expires_at = stored + c.ttl } in
      ground (arith, lookup-insert key other entry c.store)

  delete_all-cons :
      (ks : List String) (k : String) (v : Entry T) (d : Dict (Entry T))
      → delete_all ks ((k, v) ∷ d)
        ≡ (if any (str_eq k) ks then delete_all ks d else (k, v) ∷ delete_all ks d)
  unfolding delete_all remove
  delete_all-cons [] k v d = refl
  delete_all-cons (x ∷ ks) k v d = ground (arith, delete_all-cons ks k v (remove x d))

  absent_expired :
      (now : ℕ) (k : String) (d : Dict (Entry T))
      → lookup k d ≡ none
      → any (str_eq k) (expired_keys now d) ≡ false
  unfolding lookup expired_keys
  absent_expired now k [] h = refl
  absent_expired now k ((j, v) ∷ d) h =
      ground (arith, absent_expired now k d, eq_iff j k, eq_iff k j)

  evict_fresh :
      (now : ℕ) (d : Dict (Entry T))
      → IsUnique d
      → delete_all (expired_keys now d) d ≡ fresh_only now d
  unfolding delete_all expired_keys remove
  evict_fresh now [] h = refl
  evict_fresh now ((k, v) ∷ d) h = ground (
    arith,
    delete_all-cons (expired_keys now d) k v d,
    absent_expired now k d h.0,
    remove-absent k d h.0,
    evict_fresh now d h.1,
    eq_refl k,
  )

  fresh_count :
      (now : ℕ) (d : Dict (Entry T))
      → length (expired_keys now d) + length (fresh_only now d) ≡ length d
  unfolding expired_keys
  fresh_count now [] = refl
  fresh_count now ((k, v) ∷ d) = ground (arith, fresh_count now d)

  -- In a cache whose keys are distinct, an eviction leaves exactly the entries that have not
  -- expired, in their order, and returns the number of those that it removed.
  pub evict_expired_lem :
      (now : ℕ) (c : TtlCache T)
      → HasUniqueKeys c
      → let out = evict_expired now c in
        (out.1.store ≡ fresh_only now c.store)
        × (out.0 + length out.1.store ≡ length c.store)
        × (out.1.metrics ≡ c.metrics)
  unfolding evict_expired
  evict_expired_lem now c h = ground (arith, evict_fresh now c.store h, fresh_count now c.store)
