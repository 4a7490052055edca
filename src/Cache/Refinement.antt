-- ===== src/Cache/Refinement.antt =====
-- app/common/utils/openstack_cache.py: a backend that keeps the promises of `IsCache` cannot be told
-- from a view, whatever its clients call.
use v_machine.Prelude.{
  ℕ, ◌+◌, ◌≤◌, ◌≡◌, refl, ◌∙◌, ap, String, Option, none, List, [], ◌∷◌, arith, str_eq, Bool-cases,
  inl, inr,
}
use v_machine.Cache.Backend.{
  Backend, View, until, updated, read, IsCache, Op, got, stored, dropped, run, replay,
}

module _ {V : Type 0} (b : Backend V) (IsValid : b.State → Type 0) (laws : IsCache b IsValid) where
  -- from `now` on, the state reads as the view
  abbrev Reads : ℕ → b.State → View V → Type 0
  Reads now s view = (r : String) (t : ℕ) → now ≤ t → read b r t s ≡ view r t

  updated-Reads :
      (now : ℕ) (s : b.State) (view : View V) (r : String) (f : ℕ → Option V)
      → Reads now s view
      → (other : String) (t : ℕ) → now ≤ t
      → updated (λ x n. read b x n s) r f other t ≡ updated view r f other t
  updated-Reads now s view r f h other t le = elim (Bool-cases (str_eq r other)) [
    | inl e ↦ rw e refl
    | inr e ↦ rw e (h other t le)
  ]

  pub run_refines :
      (ops : List (Op V)) (now : ℕ) (s : b.State) (view : View V) (ttl : String → Option ℕ)
      → IsValid s
      → ((r : String) → b.ttl r s ≡ ttl r)
      → Reads now s view
      → run b ops now s ≡ replay ttl b.kept ops now view
  unfolding run replay
  run_refines [] now s view ttl valid t h = refl
  run_refines (got dt r ∷ ops) now s view ttl valid t h =
      let t1 = now + dt in
      let s1 = (b.get r t1 s).1 in
      let rest =
        run_refines ops t1 s1 view ttl (laws.get-IsValid r t1 s valid)
          (λ x. laws.ttl-get r x t1 s ∙ t x)
          (λ x n le. laws.read-get r x t1 n s valid le ∙ h x n (omega (arith, le))) in
      cc (rest, h r t1 (omega arith))
  run_refines (stored dt r v ∷ ops) now s view ttl valid t h =
      let t1 = now + dt in
      run_refines ops t1 (b.set r v t1 s) (updated view r (until (ttl r) (b.kept v) t1)) ttl
        (laws.set-IsValid r v t1 s valid) (λ x. laws.ttl-set r x v t1 s ∙ t x)
        (λ x n le.
          laws.read-set r x v t1 n s valid
          ∙ ap (λ d. updated (λ y m. read b y m s) r (until d (b.kept v) t1) x n) (t r)
          ∙ updated-Reads now s view r (until (ttl r) (b.kept v) t1) h x n (omega (arith, le)))
  run_refines (dropped dt r ∷ ops) now s view ttl valid t h =
      let t1 = now + dt in
      run_refines ops t1 (b.invalidate r s) (updated view r (λ n. none)) ttl
        (laws.invalidate-IsValid r s valid) (λ x. laws.ttl-invalidate r x s ∙ t x)
        (λ x n le.
          laws.read-invalidate r x n s valid
          ∙ updated-Reads now s view r (λ m. none) h x n (omega (arith, le)))
