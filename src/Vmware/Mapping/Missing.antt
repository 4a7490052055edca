-- ===== src/Vmware/Mapping/Missing.antt =====
-- When a flavor match raises: the largest known size of no flavor is an error of Python's `max`.
use v_machine.Prelude.{
  ℕ, ◌≡◌, ◌≢◌, refl, Option, none, some, List, [], ◌∷◌, All, Listed, here, there, arith,
  Option-cases, inl, inr, ◌⊎◌, ◌==◌, if◌then◌else◌,
}
use v_machine.Prelude.Exec.{ok, raise}
use v_machine.Vmware.Assessment.{FlavorMatch}
use v_machine.Vmware.Mapping.Resources.{value_error, OsFlavor}
use v_machine.Vmware.Mapping.Flavor.{
  Floats, Size, size_of, max_known, divisor, largest_sizes, choose, match_in,
}

max_known-none :
    (field : OsFlavor → Option ℕ) (flavors : List OsFlavor)
    → All (λ f. field f ≡ none) flavors
    → max_known field flavors ≡ none
unfolding max_known
max_known-none field [] h = refl
max_known-none field (f ∷ fs) h = ground (arith, max_known-none field fs)

max_known-some :
    (field : OsFlavor → Option ℕ) (flavors : List OsFlavor) (f : OsFlavor) (v : ℕ)
    → Listed f flavors
    → field f ≡ some v
    → max_known field flavors ≢ none
unfolding max_known
max_known-some field [] f v l e = elim l [ ]
max_known-some field (f ∷ fs) g v here e = ground arith
max_known-some field (f ∷ fs) g v (there l) e = ground (arith, max_known-some field fs g v l e)

divisor-some :
    (field : OsFlavor → Option ℕ) (flavors : List OsFlavor) (f : OsFlavor) (v : ℕ)
    → Listed f flavors
    → field f ≡ some v
    → (m : ℕ) × (divisor field flavors ≡ ok m)
unfolding divisor
divisor-some field flavors f v l e = elim (Option-cases (max_known field flavors)) [
  | inl h ↦ absurd (max_known-some field flavors f v l e h)
  | inr (w, h) ↦ (if w == 0 then 1 else w, rw (h, divisor))
]

module _ (fl : Floats) (target : Size) where
  -- With one flavor whose three sizes are known the match does not raise.
  pub match_in_ok :
      (flavors : List OsFlavor) (f : OsFlavor) (s : Size)
      → Listed f flavors
      → size_of f ≡ some s
      → (r : Option (FlavorMatch fl.F)) × (match_in fl target flavors ≡ ok r)
  unfolding match_in largest_sizes
  match_in_ok [] f s l e = elim l [ ]
  match_in_ok (g ∷ gs) f s l e =
      let (c, hc) =
        divisor-some (λ f. f.vcpus) (g ∷ gs) f s.cpu l (unfold size_of in ground arith) in
      let (r, hr) = divisor-some (λ f. f.ram) (g ∷ gs) f s.ram l (unfold size_of in ground arith) in
      let (d, hd) =
        divisor-some (λ f. f.disk) (g ∷ gs) f s.disk l (unfold size_of in ground arith) in
      (
        choose fl target (record { cpu = c; ram = r; disk = d }) (g ∷ gs),
        ground (arith, hc, hr, hd),
      )

  -- Where OpenStack lists flavors and tells the vcpus of none, or the ram of none, or the disk of
  -- none, the match raises instead of finding no flavor.
  pub match_in_raises :
      (f : OsFlavor) (fs : List OsFlavor)
      → All (λ g. g.vcpus ≡ none) (f ∷ fs)
        ⊎ (All (λ g. g.ram ≡ none) (f ∷ fs) ⊎ All (λ g. g.disk ≡ none) (f ∷ fs))
      → match_in fl target (f ∷ fs) ≡ raise value_error
  unfolding match_in largest_sizes divisor
  match_in_raises f fs h = elim h [
    | inl a ↦ ground (arith, max_known-none (λ g. g.vcpus) (f ∷ fs) a)
    | inr (inl a) ↦ ground (arith, max_known-none (λ g. g.ram) (f ∷ fs) a)
    | inr (inr a) ↦ ground (arith, max_known-none (λ g. g.disk) (f ∷ fs) a)
  ]
