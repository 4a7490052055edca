-- ===== src/Cache/Backend.antt =====
-- app/common/utils/openstack_cache.py, the protocol CacheBackend: what the services rely on of the
-- backend that holds OpenStack's lists, and what a client sees of one over any sequence of calls.
use v_machine.Prelude.{
  ℕ, ◌+◌, ◌≤◌, ◌≡◌, String, Option, none, some, List, [], ◌∷◌, ltb, str_eq, if◌then◌else◌,
}

-- The operations; `ttl` is the time to live that a resource is stored for, if it is stored, and
-- `kept` what becomes of a value that is stored.
pub record Backend (V : Type 0) : Type 1 where
  pub State : Type 0
  pub get : String → ℕ → State → Option V × State
  pub set : String → V → ℕ → State → State
  pub invalidate : String → State → State
  pub ttl : String → State → Option ℕ
  pub kept : V → V

-- What a read of a resource at a time returns.
abbrev pub View : Type 0 → Type 0
View V = String → ℕ → Option V

-- A call, and how long after the one before it.
pub data Op (V : Type 0) : Type 0 where
  got : ℕ → String → Op V
  stored : ℕ → String → V → Op V
  dropped : ℕ → String → Op V

module _ {V : Type 0} where
  -- what is to be read of a value that was stored at `since` for `ttl`
  abbrev pub until : Option ℕ → V → ℕ → ℕ → Option V
  until none v since now = none
  until (some ttl) v since now = if ltb now (since + ttl) then some v else none

  abbrev pub updated : View V → String → (ℕ → Option V) → View V
  updated view r f other now = if str_eq r other then f now else view other now

  module _ (b : Backend V) where
    abbrev pub read : String → ℕ → b.State → Option V
    read r now s = (b.get r now s).0

    -- What an expiring cache promises. A state may have to satisfy an invariant of its backend.
    pub record IsCache (IsValid : b.State → Type 0) : Type 1 where
      pub get-IsValid : (r : String) (now : ℕ) (s : b.State) → IsValid s → IsValid (b.get r now s).1
      pub set-IsValid :
          (r : String) (v : V) (now : ℕ) (s : b.State) → IsValid s → IsValid (b.set r v now s)
      pub invalidate-IsValid : (r : String) (s : b.State) → IsValid s → IsValid (b.invalidate r s)
      pub read-get :
          (r other : String) (t now : ℕ) (s : b.State)
          → IsValid s
          → t ≤ now
          → read other now (b.get r t s).1 ≡ read other now s
      pub read-set :
          (r other : String) (v : V) (t now : ℕ) (s : b.State)
          → IsValid s
          → read other now (b.set r v t s)
            ≡ updated (λ x n. read x n s) r (until (b.ttl r s) (b.kept v) t) other now
      pub read-invalidate :
          (r other : String) (now : ℕ) (s : b.State)
          → IsValid s
          → read other now (b.invalidate r s) ≡ updated (λ x n. read x n s) r (λ n. none) other now
      pub ttl-get :
          (r other : String) (t : ℕ) (s : b.State) → b.ttl other (b.get r t s).1 ≡ b.ttl other s
      pub ttl-set :
          (r other : String) (v : V) (t : ℕ) (s : b.State)
          → b.ttl other (b.set r v t s) ≡ b.ttl other s
      pub ttl-invalidate :
          (r other : String) (s : b.State) → b.ttl other (b.invalidate r s) ≡ b.ttl other s

  -- the results of the reads
  unfoldable pub run : (b : Backend V) → List (Op V) → ℕ → b.State → List (Option V)
  run b [] now s = []
  run b (got dt r ∷ ops) now s = let (v, s') = b.get r (now + dt) s in v ∷ run b ops (now + dt) s'
  run b (stored dt r v ∷ ops) now s = run b ops (now + dt) (b.set r v (now + dt) s)
  run b (dropped dt r ∷ ops) now s = run b ops (now + dt) (b.invalidate r s)

  -- the same calls, on a view
  unfoldable pub replay : (String → Option ℕ) → (V → V) → List (Op V) → ℕ → View V → List (Option V)
  replay ttl kept [] now view = []
  replay ttl kept (got dt r ∷ ops) now view =
      view r (now + dt) ∷ replay ttl kept ops (now + dt) view
  replay ttl kept (stored dt r v ∷ ops) now view =
      replay ttl kept ops (now + dt) (updated view r (until (ttl r) (kept v) (now + dt)))
  replay ttl kept (dropped dt r ∷ ops) now view =
      replay ttl kept ops (now + dt) (updated view r (λ n. none))
