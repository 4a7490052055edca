-- ===== src/Cache/Redis/Tests.antt =====
-- RedisCache on concrete inputs, with a Redis that holds its texts in a dict.
use v_machine.Prelude.{
  ℕ, ◌+◌, ◌≡◌, refl, String, true, Option, none, some, List, [], ◌∷◌, arith, ltb, str_eq,
  if◌then◌else◌, Bool-cases, inl, inr,
}
use v_machine.Prelude.Dict.{Dict, lookup, insert, remove, lookup-insert, lookup-remove}
use v_machine.Cache.Backend.{Op, got, stored, dropped, read, run, replay}
use v_machine.Cache.Redis.{RedisClient, Json, Cached, ttl_for, backend}
use v_machine.Cache.Redis.Reads.{IsReliable, IsValid}
use v_machine.Cache.Redis.Laws.{redis_refines}

abbrev Held : Type 0
Held = Option (String × ℕ)

abbrev living : ℕ → Held → Option String
living now none = none
living now (some (text, deadline)) = if ltb now deadline then some text else none

abbrev in_memory : RedisClient
in_memory = record {
  Store = Dict (String × ℕ);
  get = λ k now s. some (living now (lookup k s));
  setex = λ k ttl text now s. (true, insert k (text, now + ttl) s);
  delete = λ k s. (true, remove k s);
  latency = λ s. 1;
}

in_memory-IsReliable : IsReliable in_memory
in_memory-IsReliable = record {
  held = λ k now s. living now (lookup k s);
  answers = λ k now s. refl;
  stores = λ k ttl text t s p. refl;
  held-setex = λ k other ttl text t now s p. elim (Bool-cases (str_eq k other)) [
    | inl e ↦ rw (lookup-insert k other (text, t + ttl) s, e) refl
    | inr e ↦ rw (lookup-insert k other (text, t + ttl) s, e) refl
  ];
  deletes = λ k s. refl;
  held-delete = λ k other now s. elim (Bool-cases (str_eq k other)) [
    | inl e ↦ rw (lookup-remove k other s, e) refl
    | inr e ↦ rw (lookup-remove k other s, e) refl
  ];
}

-- a text is its own json
abbrev texts : Json String
texts = record { dumps = λ v. v; loads = λ v. v }

abbrev empty_cache : Cached in_memory texts
empty_cache = record {
  project = "admin";
  store = [];
  ttls = [];
  metrics = record { hits = []; misses = []; invalidations = [] };
  errors = 0;
  latencies = [];
}

empty_cache-IsValid : IsValid in_memory texts in_memory-IsReliable empty_cache
unfolding lookup
empty_cache-IsValid = record { lives = λ r. omega arith; window = omega arith }

abbrev calls : List (Op String)
calls =
    stored 1 "servers" "[]"
    ∷ got 3 "servers"
    ∷ got 40 "servers"
    ∷ stored 0 "images" "[1]"
    ∷ dropped 1 "images"
    ∷ got 0 "images"
    ∷ []

redis_refines_example :
    run (backend in_memory texts) calls 100 empty_cache
    ≡ replay
        (λ r. some (ttl_for r empty_cache))
        (λ v. v)
        calls
        100
        (λ r t. read (backend in_memory texts) r t empty_cache)
redis_refines_example =
    redis_refines in_memory texts in_memory-IsReliable calls 100 empty_cache empty_cache-IsValid
