-- ===== src/Cache/Redis/Reads.antt =====
-- app/common/utils/redis_cache.py, RedisCache: what each operation does where Redis answers.
use text.Mathlib.TextLemmas.{append_cancel_left, append_cancel_right}
use v_machine.Prelude.{
  zero, suc, ℕ, ◌+◌, ◌-◌, ◌≤◌, ◌<◌, ◌≡◌, refl, sym, ap, ◌∙◌, String, Bool, true, false, Option,
  none, some, List, [], ◌∷◌, ◌++◌, arith, ltb, str_eq, eq_iff, if◌then◌else◌, Option-cases,
  Bool-cases, inl, inr, length, length-append,
}
use v_machine.Cache.Backend.{updated, read}
use v_machine.Cache.Redis.{
  RedisClient, Json, drop, key_of, ttl_for, count_hit, count_miss, count_invalidation,
  record_latency, Cached, get, set, invalidate, backend,
}

-- What is relied on of a Redis that answers: SETEX with a positive time stores the text for that
-- time, DEL removes it, and both leave the other keys.
pub record IsReliable (client : RedisClient) : Type 0 where
  pub held : String → ℕ → client.Store → Option String
  pub answers : (k : String) (now : ℕ) (s : client.Store) → client.get k now s ≡ some (held k now s)
  pub stores :
      (k : String) (ttl : ℕ) (text : String) (t : ℕ) (s : client.Store)
      → 0 < ttl
      → (client.setex k ttl text t s).0 ≡ true
  pub held-setex :
      (k other : String) (ttl : ℕ) (text : String) (t now : ℕ) (s : client.Store)
      → 0 < ttl
      → held other now (client.setex k ttl text t s).1 ≡ (
          if str_eq k other
          then (if ltb now (t + ttl) then some text else none)
          else held other now s)
  pub deletes : (k : String) (s : client.Store) → (client.delete k s).0 ≡ true
  pub held-delete :
      (k other : String) (now : ℕ) (s : client.Store)
      → held other now (client.delete k s).1 ≡ (if str_eq k other then none else held other now s)

length-drop : (n : ℕ) (xs : List ℕ) → length (drop n xs) ≡ length xs - n
unfolding drop
length-drop zero xs = omega arith
length-drop (suc n) [] = omega arith
length-drop (suc n) (x ∷ xs) = omega (arith, length-drop n xs)

-- A write keeps the times to live, whether Redis answers or not.
pub ttl-set :
    {V : Type 0} (client : RedisClient) (json : Json V) (r other : String) (x : V) (t : ℕ)
    (c : Cached client json)
    → ttl_for other (set client json r x t c) ≡ ttl_for other c
unfolding set record_latency
ttl-set client json r other x t c =
    let out = client.setex (key_of r c) (ttl_for r c) (json.dumps x) t c.store in
    elim (Bool-cases out.0) [ inl e ↦ rw (e, set) refl | inr e ↦ rw (e, set) refl ]

module _ {V : Type 0} (client : RedisClient) (json : Json V) (h : IsReliable client) where
  -- The times to live are positive, and the latencies at most 1000.
  pub record IsValid (c : Cached client json) : Type 0 where
    pub lives : (r : String) → 0 < ttl_for r c
    pub window : length c.latencies ≤ 1000

  resource_of :
      (c : Cached client json) (r other : String) → key_of r c ≡ key_of other c → r ≡ other
  resource_of c r other e = append_cancel_right r other "" (
      append_cancel_left ":" _ _ (
        append_cancel_left c.project _ _
          (append_cancel_left ":" _ _ (append_cancel_left "okastro" _ _ e))))

  same_key :
      (c : Cached client json) (r other : String)
      → str_eq (key_of r c) (key_of other c) ≡ str_eq r other
  same_key c r other = elim (Bool-cases (str_eq r other)) [
    | inl e ↦ rw e ((eq_iff _ _).1 (ap (λ x. key_of x c) ((eq_iff r other).0 e)))
    | inr e ↦ elim (Bool-cases (str_eq (key_of r c) (key_of other c))) [
      | inr n ↦ rw (e, n) refl
      | inl k ↦
          absurd (ground (arith, e, (eq_iff r other).1 (resource_of c r other ((eq_iff _ _).0 k))))
    ]
  ]

  pub window-record_latency :
      (seconds : ℕ) (c : Cached client json)
      → length c.latencies ≤ 1000
      → length (record_latency seconds c).latencies ≤ 1000
  unfolding record_latency
  window-record_latency seconds c w =
      let all = c.latencies ++ seconds ∷ [] in
      ground
        (arith, w, length-append c.latencies (seconds ∷ []), length-drop (length all - 500) all)

  abbrev pub decoded : Option String → Option V
  decoded none = none
  decoded (some text) = some (json.loads text)

  abbrev pub held_by : String → ℕ → Cached client json → Option String
  held_by r now c = h.held (key_of r c) now c.store

  -- a read whose text is known
  pub answer : String → Option String → Cached client json → Option V × Cached client json
  answer r none c = (none, count_miss r (record_latency (client.latency c.store) c))
  answer r (some text) c =
      (some (json.loads text), count_hit r (record_latency (client.latency c.store) c))

  pub get-answer :
      (r : String) (now : ℕ) (c : Cached client json)
      → get client json r now c ≡ answer r (held_by r now c) c
  unfolding get answer
  get-answer r now c = elim (Option-cases (held_by r now c)) [
    | inl e ↦ rw (h.answers (key_of r c) now c.store, e, get) refl
    | inr (text, e) ↦ rw (h.answers (key_of r c) now c.store, e, get) refl
  ]

  pub answer-decoded :
      (r : String) (o : Option String) (c : Cached client json) → (answer r o c).0 ≡ decoded o
  unfolding answer
  answer-decoded r none c = refl
  answer-decoded r (some text) c = refl

  pub read-held :
      (r : String) (now : ℕ) (c : Cached client json)
      → read (backend client json) r now c ≡ decoded (held_by r now c)
  read-held r now c = ap (λ out. out.0) (get-answer r now c) ∙ answer-decoded r (held_by r now c) c

  -- what a read leaves: everything but the counters
  pub held-answer :
      (r other : String) (o : Option String) (now : ℕ) (c : Cached client json)
      → held_by other now (answer r o c).1 ≡ held_by other now c
  unfolding answer record_latency
  held-answer r other none now c = refl
  held-answer r other (some text) now c = refl

  pub answer-IsValid :
      (r : String) (o : Option String) (c : Cached client json)
      → IsValid c
      → IsValid (answer r o c).1
  unfolding answer record_latency
  answer-IsValid r none c v = record {
    lives = v.lives;
    window = window-record_latency (client.latency c.store) c v.window;
  }
  answer-IsValid r (some text) c v = record {
    lives = v.lives;
    window = window-record_latency (client.latency c.store) c v.window;
  }

  pub ttl-answer :
      (r other : String) (o : Option String) (c : Cached client json)
      → ttl_for other (answer r o c).1 ≡ ttl_for other c
  unfolding answer record_latency
  ttl-answer r other none c = refl
  ttl-answer r other (some text) c = refl

  pub read-get :
      (r other : String) (t now : ℕ) (c : Cached client json)
      → read (backend client json) other now (get client json r t c).1
        ≡ read (backend client json) other now c
  read-get r other t now c =
      read-held other now (get client json r t c).1
      ∙ ap (λ out. decoded (held_by other now out.1)) (get-answer r t c)
      ∙ ap decoded (held-answer r other (held_by r t c) now c)
      ∙ sym (read-held other now c)

  -- an operation that sets what is held of a key to `f`
  pub read-changed :
      (r other : String) (now : ℕ) (c c' : Cached client json) (f : ℕ → Option String)
      → held_by other now c'
        ≡ (if str_eq (key_of r c) (key_of other c) then f now else held_by other now c)
      → read (backend client json) other now c'
        ≡ updated (λ x n. read (backend client json) x n c) r (λ n. decoded (f n)) other now
  read-changed r other now c c' f e =
      read-held other now c'
      ∙ ap decoded (e ∙ rw (same_key c r other) refl)
      ∙ choose (str_eq r other)
    where
      choose :
          (b : Bool)
          → decoded (if b then f now else held_by other now c)
            ≡ (if b then decoded (f now) else read (backend client json) other now c)
      choose true = refl
      choose false = sym (read-held other now c)

  pub set-done :
      (r : String) (v : V) (t : ℕ) (c : Cached client json)
      → 0 < ttl_for r c
      → let store = (client.setex (key_of r c) (ttl_for r c) (json.dumps v) t c.store).1 in
        set client json r v t c
        ≡ record_latency (client.latency c.store) (record c { store = store })
  unfolding set
  set-done r v t c p = rw (h.stores (key_of r c) (ttl_for r c) (json.dumps v) t c.store p, set) refl

  pub invalidate-done :
      (r : String) (c : Cached client json)
      → let store = (client.delete (key_of r c) c.store).1 in
        invalidate client json r c
        ≡ count_invalidation r
            (record_latency (client.latency c.store) (record c { store = store }))
  unfolding invalidate
  invalidate-done r c = rw (h.deletes (key_of r c) c.store, invalidate) refl
