-- ===== src/Cache/Tests.antt =====
-- TTLCache on concrete inputs.
use v_machine.Prelude.{
  ℕ, ◌+◌, ◌≡◌, refl, String, Option, none, some, List, [], ◌∷◌, length, ltb, str_eq, if◌then◌else◌,
  is_some,
}
use v_machine.Prelude.Dict.{Dict, insert, total, count_of}
use v_machine.Cache.{TtlCache, evict_expired}
use v_machine.Cache.Keys.{HasUniqueKeys}
use v_machine.Cache.Expiry.{fresh_only, evict_expired_lem}

abbrev two_entries : TtlCache ℕ
two_entries = record {
  ttl = 300;
  name = "servers";
  store =
      ("a", record { value = 1; expires_at = 100 })
      ∷ ("b", record { value = 2; expires_at = 500 })
      ∷ [];
  metrics = record { hits = ("servers", 3) ∷ []; misses = []; invalidations = [] };
}

two_entries-HasUniqueKeys : HasUniqueKeys two_entries
unfolding v_machine.Prelude.Dict.lookup
two_entries-HasUniqueKeys = (refl, (refl, tt))

evict_expired_lem_example :
    let out = evict_expired 200 two_entries in
    (out.1.store ≡ fresh_only 200 two_entries.store)
    × (out.0 + length out.1.store ≡ 2)
    × (out.1.metrics ≡ two_entries.metrics)
evict_expired_lem_example = evict_expired_lem 200 two_entries two_entries-HasUniqueKeys
