-- ===== src/Cache/Memory/Laws.antt =====
-- app/common/utils/openstack_cache.py, MemoryCacheBackend: it keeps the promises of the protocol.
use mathlib.Core.Path.{subst}
use v_machine.Prelude.{
  ℕ, ◌+◌, ◌≤◌, ◌≡◌, refl, sym, ap, ◌∙◌, String, Option, none, some, List, arith, ltb, leb, str_eq,
  eq_iff, eq_refl, if◌then◌else◌, Option-cases, Bool-cases, inl, inr,
}
use v_machine.Prelude.Dict.{Dict, lookup, insert, lookup-insert, lookup-remove}
use v_machine.Cache as Ttl
use v_machine.Cache.{Entry, TtlCache}
use v_machine.Cache.Backend.{View, until, updated, read, IsCache, Op, run, replay}
use v_machine.Cache.Refinement.{run_refines}
use v_machine.Cache.Memory.{
  MemoryCacheBackend, get, set, invalidate, ttl_of, backend, with_metrics, put_back,
}

module _ {T : Type 0} where
  -- what is to be read of a TTLCache's entries
  abbrev fetch : String → ℕ → Dict (Entry T) → Option T
  fetch key now d = elim (lookup key d) [
    | none ↦ none
    | some entry ↦ if leb entry.expires_at now then none else some entry.value
  ]

  get-fetch :
      (key : String) (now : ℕ) (c : TtlCache T) → (Ttl.get key now c).0 ≡ fetch key now c.store
  unfolding Ttl.get
  get-fetch key now c = ground arith

  fetch-get :
      (key other : String) (t now : ℕ) (c : TtlCache T)
      → t ≤ now
      → fetch other now (Ttl.get key t c).1.store ≡ fetch other now c.store
  unfolding Ttl.get
  fetch-get key other t now c le = ground (arith, lookup-remove key other c.store, eq_iff key other)

  fetch-set :
      (key : String) (v : T) (t now : ℕ) (c : TtlCache T)
      → fetch key now (Ttl.set key v t c).store ≡ (if ltb now (t + c.ttl) then some v else none)
  unfolding Ttl.set
  fetch-set key v t now c =
      let entry : Entry T = record { value = v; expires_at = t + c.ttl } in
      ground (arith, lookup-insert key key entry c.store, eq_refl key)

  -- what is to be read of a resource's TTLCache, if it has one
  abbrev seen : String → ℕ → Option (TtlCache T) → Option T
  seen r now none = none
  seen r now (some c) = fetch r now c.store

  read-seen :
      (r : String) (now : ℕ) (b : MemoryCacheBackend T)
      → read backend r now b ≡ seen r now (lookup r b.stores)
  unfolding get
  read-seen r now b = elim (Option-cases (lookup r b.stores)) [
    | inl e ↦ ground (arith, e)
    | inr (c, e) ↦ ground (arith, e, get-fetch r now (with_metrics b.metrics c))
  ]

  -- a resource's TTLCache is put back: what is read of it is `v`, and of the others as before
  seen-insert :
      (r other : String) (now : ℕ) (c : TtlCache T) (stores : Dict (TtlCache T)) (f : ℕ → Option T)
      → fetch r now c.store ≡ f now
      → seen other now (lookup other (insert r c stores))
        ≡ updated (λ x n. seen x n (lookup x stores)) r f other now
  seen-insert r other now c stores f h = elim (Bool-cases (str_eq r other)) [
    | inl e ↦
        let same : r ≡ other = (eq_iff r other).0 e in
        rw (lookup-insert r other c stores, e) (subst (λ x. fetch x now c.store ≡ f now) same h)
    | inr e ↦ rw (lookup-insert r other c stores, e) refl
  ]

  updated_same :
      (view : View T) (r other : String) (now : ℕ)
      → updated view r (view r) other now ≡ view other now
  updated_same view r other now = elim (Bool-cases (str_eq r other)) [
    | inl e ↦ rw e (ap (λ x. view x now) ((eq_iff r other).0 e))
    | inr e ↦ rw e refl
  ]

  read-get :
      (r other : String) (t now : ℕ) (b : MemoryCacheBackend T)
      → t ≤ now
      → read backend other now (get r t b).1 ≡ read backend other now b
  unfolding get
  read-get r other t now b le = elim (Option-cases (lookup r b.stores)) [
    | inl e ↦ rw (e, get) refl
    | inr (c, e) ↦
        let c0 = with_metrics b.metrics c in
        let c1 = (Ttl.get r t c0).1 in
        let there =
          seen-insert r other now c1 b.stores (λ n. seen r n (lookup r b.stores))
            (rw e (fetch-get r r t now c0 le)) in
        rw (e, get)
          (read-seen other now (put_back r c1 b)
            ∙ there
            ∙ updated_same (λ x n. seen x n (lookup x b.stores)) r other now
            ∙ sym (read-seen other now b))
  ]

  -- an operation on the TTLCache of a resource that sets what is to be read of it
  read-put_back :
      (r other : String) (now : ℕ) (c : TtlCache T) (b : MemoryCacheBackend T) (f : ℕ → Option T)
      → fetch r now c.store ≡ f now
      → read backend other now (put_back r c b) ≡ updated (λ x n. read backend x n b) r f other now
  read-put_back r other now c b f h =
      read-seen other now (put_back r c b)
      ∙ seen-insert r other now c b.stores f h
      ∙ elim (Bool-cases (str_eq r other)) [
        | inl e ↦ rw e refl
        | inr e ↦ rw e (sym (read-seen other now b))
      ]

  -- an operation on a resource without a TTLCache
  unknown_none :
      (r other : String) (now : ℕ) (b : MemoryCacheBackend T)
      → lookup r b.stores ≡ none
      → read backend other now b ≡ updated (λ x n. read backend x n b) r (λ n. none) other now
  unknown_none r other now b e = elim (Bool-cases (str_eq r other)) [
    | inl same ↦
        let q : r ≡ other = (eq_iff r other).0 same in
        rw same (read-seen other now b ∙ rw (← q, e) refl)
    | inr different ↦ rw different refl
  ]

  read-set :
      (r other : String) (v : T) (t now : ℕ) (b : MemoryCacheBackend T)
      → read backend other now (set r v t b)
        ≡ updated (λ x n. read backend x n b) r (until (ttl_of r b) v t) other now
  unfolding set ttl_of
  read-set r other v t now b = elim (Option-cases (lookup r b.stores)) [
    | inl e ↦ rw (e, set, ttl_of) (unknown_none r other now b e)
    | inr (c, e) ↦
        let c0 = with_metrics b.metrics c in
        rw (e, set, ttl_of)
          (read-put_back r other now (Ttl.set r v t c0) b (until (some c.ttl) v t)
            (fetch-set r v t now c0))
  ]

  read-invalidate :
      (r other : String) (now : ℕ) (b : MemoryCacheBackend T)
      → read backend other now (invalidate r b)
        ≡ updated (λ x n. read backend x n b) r (λ n. none) other now
  unfolding invalidate Ttl.invalidate_all lookup
  read-invalidate r other now b = elim (Option-cases (lookup r b.stores)) [
    | inl e ↦ rw (e, invalidate) (unknown_none r other now b e)
    | inr (c, e) ↦
        rw (e, invalidate)
          (read-put_back r other now (Ttl.invalidate_all (with_metrics b.metrics c)) b (λ n. none)
            refl)
  ]

  ttl-put_back :
      (r other : String) (c c' : TtlCache T) (b : MemoryCacheBackend T)
      → lookup r b.stores ≡ some c
      → c'.ttl ≡ c.ttl
      → ttl_of other (put_back r c' b) ≡ ttl_of other b
  unfolding ttl_of
  ttl-put_back r other c c' b e h = elim (Bool-cases (str_eq r other)) [
    | inl same ↦
        let q : r ≡ other = (eq_iff r other).0 same in
        rw (lookup-insert r other c' b.stores, same, ← q, e, ttl_of) (ap (λ n. some n) h)
    | inr different ↦ rw (lookup-insert r other c' b.stores, different, ttl_of) refl
  ]

  get-keeps_ttl : (r : String) (t : ℕ) (c : TtlCache T) → (Ttl.get r t c).1.ttl ≡ c.ttl
  unfolding Ttl.get
  get-keeps_ttl r t c = ground arith

  ttl-get :
      (r other : String) (t : ℕ) (b : MemoryCacheBackend T)
      → ttl_of other (get r t b).1 ≡ ttl_of other b
  unfolding get
  ttl-get r other t b = elim (Option-cases (lookup r b.stores)) [
    | inl e ↦ rw (e, get) refl
    | inr (c, e) ↦
        let c0 = with_metrics b.metrics c in
        rw (e, get) (ttl-put_back r other c (Ttl.get r t c0).1 b e (get-keeps_ttl r t c0))
  ]

  ttl-set :
      (r other : String) (v : T) (t : ℕ) (b : MemoryCacheBackend T)
      → ttl_of other (set r v t b) ≡ ttl_of other b
  unfolding set Ttl.set
  ttl-set r other v t b = elim (Option-cases (lookup r b.stores)) [
    | inl e ↦ rw (e, set) refl
    | inr (c, e) ↦
        rw (e, set) (ttl-put_back r other c (Ttl.set r v t (with_metrics b.metrics c)) b e refl)
  ]

  ttl-invalidate :
      (r other : String) (b : MemoryCacheBackend T) → ttl_of other (invalidate r b) ≡ ttl_of other b
  unfolding invalidate Ttl.invalidate_all
  ttl-invalidate r other b = elim (Option-cases (lookup r b.stores)) [
    | inl e ↦ rw (e, invalidate) refl
    | inr (c, e) ↦
        rw (e, invalidate)
          (ttl-put_back r other c (Ttl.invalidate_all (with_metrics b.metrics c)) b e refl)
  ]

  pub laws : IsCache (backend {V = T}) (λ b. Unit)
  laws = record {
    get-IsValid = λ r now b h. tt;
    set-IsValid = λ r v now b h. tt;
    invalidate-IsValid = λ r b h. tt;
    read-get = λ r other t now b h le. read-get r other t now b le;
    read-set = λ r other v t now b h. read-set r other v t now b;
    read-invalidate = λ r other now b h. read-invalidate r other now b;
    ttl-get = ttl-get;
    ttl-set = ttl-set;
    ttl-invalidate = ttl-invalidate;
  }

  -- Whatever its clients call, the memory backend returns to each read what a view returns that
  -- starts from the backend's contents: the value that was last stored for the resource, if it is a
  -- resource with a time to live and less than that has passed, and nothing was dropped since.
  pub memory_refines :
      (ops : List (Op T)) (now : ℕ) (b : MemoryCacheBackend T)
      → run backend ops now b
        ≡ replay (λ r. ttl_of r b) (λ v. v) ops now (λ r t. read backend r t b)
  memory_refines ops now b =
      run_refines backend (λ s. Unit) laws ops now b _ _ tt (λ r. refl) (λ r t le. refl)
