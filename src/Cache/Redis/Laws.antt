-- ===== src/Cache/Redis/Laws.antt =====
-- app/common/utils/redis_cache.py, RedisCache: with a Redis that answers, it keeps the promises of
-- the protocol.
use mathlib.Core.Path.{subst}
use v_machine.Prelude.{
  ℕ, ◌+◌, ◌≡◌, refl, sym, ap, ◌∙◌, String, Bool, true, false, Option, none, some, List, ltb, str_eq,
  if◌then◌else◌,
}
use v_machine.Cache.Backend.{until, updated, read, IsCache, Op, run, replay}
use v_machine.Cache.Refinement.{run_refines}
use v_machine.Cache.Redis.{
  RedisClient, Json, key_of, ttl_for, record_latency, Cached, get, set, invalidate, backend,
}
use v_machine.Cache.Redis.Reads.{
  IsReliable, IsValid, window-record_latency, decoded, held_by, get-answer, answer-IsValid,
  read-get, read-changed, set-done, invalidate-done, ttl-answer, ttl-set,
}

module _ {V : Type 0} (client : RedisClient) (json : Json V) (h : IsReliable client) where
  abbrev Valid : Cached client json → Type 0
  Valid = IsValid client json h

  get-IsValid :
      (r : String) (now : ℕ) (c : Cached client json) → Valid c → Valid (get client json r now c).1
  get-IsValid r now c v =
      subst (λ out. Valid out.1) (sym (get-answer client json h r now c))
        (answer-IsValid client json h r (held_by client json h r now c) c v)

  set-IsValid :
      (r : String) (x : V) (t : ℕ) (c : Cached client json)
      → Valid c
      → Valid (set client json r x t c)
  unfolding record_latency
  set-IsValid r x t c v =
      let s = (client.setex (key_of r c) (ttl_for r c) (json.dumps x) t c.store).1 in
      subst Valid (sym (set-done client json h r x t c (v.lives r))) (record {
        lives = v.lives;
        window =
            window-record_latency client json h (client.latency c.store) (record c { store = s })
              v.window;
      })

  invalidate-IsValid :
      (r : String) (c : Cached client json) → Valid c → Valid (invalidate client json r c)
  unfolding record_latency
  invalidate-IsValid r c v =
      let s = (client.delete (key_of r c) c.store).1 in
      subst Valid (sym (invalidate-done client json h r c)) (record {
        lives = v.lives;
        window =
            window-record_latency client json h (client.latency c.store) (record c { store = s })
              v.window;
      })

  read-set :
      (r other : String) (x : V) (t now : ℕ) (c : Cached client json)
      → Valid c
      → read (backend client json) other now (set client json r x t c)
        ≡ updated
            (λ y n. read (backend client json) y n c)
            r
            (until (some (ttl_for r c)) (json.loads (json.dumps x)) t)
            other
            now
  unfolding record_latency
  read-set r other x t now c v =
      let text = json.dumps x in
      let f : ℕ → Option String = λ n. if ltb n (t + ttl_for r c) then some text else none in
      ap (λ c'. read (backend client json) other now c')
        (set-done client json h r x t c (v.lives r))
      ∙ read-changed client json h r other now c _ f
          (h.held-setex (key_of r c) (key_of other c) (ttl_for r c) text t now c.store (v.lives r))
      ∙ ap (λ o. if str_eq r other then o else read (backend client json) other now c)
          (decode (ltb now (t + ttl_for r c)) text)
    where
      decode :
          (b : Bool) (text : String)
          → decoded client json h (if b then some text else none)
            ≡ (if b then some (json.loads text) else none)
      decode true text = refl
      decode false text = refl

  read-invalidate :
      (r other : String) (now : ℕ) (c : Cached client json)
      → read (backend client json) other now (invalidate client json r c)
        ≡ updated (λ y n. read (backend client json) y n c) r (λ n. none) other now
  unfolding record_latency
  read-invalidate r other now c =
      ap (λ c'. read (backend client json) other now c') (invalidate-done client json h r c)
      ∙ read-changed client json h r other now c _ (λ n. none)
          (h.held-delete (key_of r c) (key_of other c) now c.store)

  ttl-get :
      (r other : String) (t : ℕ) (c : Cached client json)
      → ttl_for other (get client json r t c).1 ≡ ttl_for other c
  unfolding record_latency
  ttl-get r other t c =
      ap (λ out. ttl_for other out.1) (get-answer client json h r t c)
      ∙ ttl-answer client json h r other (held_by client json h r t c) c

  pub laws : IsCache (backend client json) Valid
  unfolding record_latency
  laws = record {
    get-IsValid = get-IsValid;
    set-IsValid = set-IsValid;
    invalidate-IsValid = invalidate-IsValid;
    read-get = λ r other t now c v le. read-get client json h r other t now c;
    read-set = read-set;
    read-invalidate = λ r other now c v. read-invalidate r other now c;
    ttl-get = λ r other t c. ap (λ n. some n) (ttl-get r other t c);
    ttl-set = λ r other x t c. ap (λ n. some n) (ttl-set client json r other x t c);
    ttl-invalidate =
        λ r other c. ap (λ c'. some (ttl_for other c')) (invalidate-done client json h r c);
  }

  -- Where Redis answers and the times to live are positive, whatever its clients call, the cache
  -- returns to each read what a view returns that starts from the cache's contents: the value that
  -- was last stored for the resource, written to json and read back, if less than its time to live
  -- has passed and nothing was dropped since.
  pub redis_refines :
      (ops : List (Op V)) (now : ℕ) (c : Cached client json)
      → IsValid client json h c
      → run (backend client json) ops now c
        ≡ replay
            (λ r. some (ttl_for r c))
            (λ v. json.loads (json.dumps v))
            ops
            now
            (λ r t. read (backend client json) r t c)
  redis_refines ops now c v =
      run_refines (backend client json) Valid laws ops now c _ _ v (λ r. refl) (λ r t le. refl)
