-- ===== src/Vmware/Mapping/Nearest.antt =====
-- Which flavor `choose` takes.
use v_machine.Prelude.{
  ◌≡◌, refl, arith, true, false, Option, none, some, List, [], ◌∷◌, ◌⊎◌, inl, inr, All, Listed,
  Bool-cases, Option-cases, here, there, sym, ap, ◌∙◌,
}
use mathlib.Core.Option.{some-injective}
use mathlib.Core.Path.{subst}
use v_machine.Vmware.Assessment.{FlavorMatch}
use v_machine.Vmware.Mapping.Resources.{OsFlavor}
use v_machine.Vmware.Mapping.Flavor.{
  Floats, Size, size_of, distance, nearest, flavor_result, report_best, choose,
}

-- What is relied on of the order of floats; it holds of every float, infinities and NaN included.
pub record IsOrder (fl : Floats) : Type 0 where
  pub irreflexive : (x : fl.F) → fl.lt x x ≡ false
  pub transitive : (x y z : fl.F) → fl.lt x y ≡ true → fl.lt y z ≡ true → fl.lt x z ≡ true

module _ (fl : Floats) (order : IsOrder fl) (target largest : Size) where
  open fl use {F, lt}

  abbrev pub dist : Size → F
  dist = distance fl target largest

  -- no complete flavor of the list is nearer than the bound
  abbrev pub NoneNearer : F → List OsFlavor → Type 0
  NoneNearer bound = All (λ g. (s : Size) → size_of g ≡ some s → lt (dist s) bound ≡ false)

  -- the outcome of the loop, against what it started from
  record Outcome (flavors : List OsFlavor) (score : F) (best : Option (OsFlavor × Size))
      (out : Option (OsFlavor × Size) × F) : Type 0 where
    minimal : NoneNearer out.1 flavors
    origin :
        (out ≡ (best, score))
        ⊎ (lt out.1 score ≡ true)
          × ((f : OsFlavor) × (s : Size) × (out ≡ (some (f, s), dist s))
              × (size_of f ≡ some s)
              × Listed f flavors)

  -- from a bound that is no nearer, nothing becomes nearer
  not-lt-of-origin :
      (flavors : List OsFlavor) (best : Option (OsFlavor × Size)) (score x : F)
      (out : Option (OsFlavor × Size) × F)
      → Outcome flavors score best out
      → lt x score ≡ false
      → lt x out.1 ≡ false
  not-lt-of-origin flavors best score x out o h = elim o.origin [
    | inl e ↦ rw e h
    | inr p ↦ elim (Bool-cases (lt x out.1)) [
      | inl q ↦ cc (order.transitive x out.1 score q p.0)
      | inr q ↦ q
    ]
  ]

  origin-there :
      (f : OsFlavor) (flavors : List OsFlavor) (best : Option (OsFlavor × Size)) (score : F)
      (out : Option (OsFlavor × Size) × F)
      → Outcome flavors score best out
      → ((s : Size) → size_of f ≡ some s → lt (dist s) score ≡ false)
      → Outcome (f ∷ flavors) score best out
  origin-there f flavors best score out o h = record {
    minimal = (λ s q. not-lt-of-origin flavors best score (dist s) out o (h s q), o.minimal);
    origin = elim o.origin [
      | inl e ↦ inl e
      | inr (p, (g, s, e, q, l)) ↦ inr (p, (g, s, e, q, there l))
    ];
  }

  origin-here :
      (f : OsFlavor) (s : Size) (flavors : List OsFlavor) (best : Option (OsFlavor × Size))
      (score : F) (out : Option (OsFlavor × Size) × F)
      → size_of f ≡ some s
      → lt (dist s) score ≡ true
      → Outcome flavors (dist s) (some (f, s)) out
      → Outcome (f ∷ flavors) score best out
  origin-here f s flavors best score out q h o = record {
    minimal = (
      λ t r.
          not-lt-of-origin flavors (some (f, s)) (dist s) (dist t) out o
            (rw (some-injective t s (sym r ∙ q)) (order.irreflexive (dist s))),
      o.minimal,
    );
    origin = elim o.origin [
      | inl e ↦ inr (rw e h, (f, s, e, q, here))
      | inr (p, (g, t, e, r, l)) ↦ inr (order.transitive _ _ _ p h, (g, t, e, r, there l))
    ];
  }

  nearest-Outcome :
      (flavors : List OsFlavor) (best : Option (OsFlavor × Size)) (score : F)
      → Outcome flavors score best (nearest fl target largest flavors best score)
  unfolding nearest
  nearest-Outcome [] best score = record { minimal = tt; origin = inl refl }
  nearest-Outcome (f ∷ fs) best score =
      let skipped = nearest-Outcome fs best score in
      elim (Option-cases (size_of f)) [
        | inl e ↦ rw (e, nearest) (origin-there f fs best score _ skipped (λ s q. cc))
        | inr (s, e) ↦
            rw (e, nearest)
              (elim (Bool-cases (lt (dist s) score)) [
                | inl h ↦ rw h (
                    origin-here f s fs best score _ e h (nearest-Outcome fs (some (f, s)) (dist s)))
                | inr h ↦ rw h (origin-there f fs best score _ skipped (λ t q. cc))
              ])
      ]

  -- The chosen flavor is one of the list's complete flavors, the match reports it with the flags
  -- and the score of its own size, and no complete flavor of the list is nearer.
  pub choose_nearest :
      (flavors : List OsFlavor) (r : FlavorMatch F)
      → choose fl target largest flavors ≡ some r
      → (f : OsFlavor) × (s : Size) × (r ≡ flavor_result fl target largest f s (dist s))
        × (size_of f ≡ some s)
        × Listed f flavors
        × NoneNearer (dist s) flavors
  unfolding choose report_best
  choose_nearest flavors r h =
      let o = nearest-Outcome flavors none fl.infinity in
      elim o.origin [
        | inl e ↦ absurd (cc (ap (λ out. report_best fl target largest out.0 out.1) e))
        | inr (p, (f, s, e, q, l)) ↦
            (f, s, ground (arith, e), q, l, subst (λ out. NoneNearer out.1 flavors) e o.minimal)
      ]

  -- Nothing is chosen only where no complete flavor lies at a finite distance.
  pub choose-none :
      (flavors : List OsFlavor)
      → choose fl target largest flavors ≡ none
      → NoneNearer fl.infinity flavors
  unfolding choose report_best
  choose-none flavors h =
      let o = nearest-Outcome flavors none fl.infinity in
      elim o.origin [
        | inl e ↦ subst (λ out. NoneNearer out.1 flavors) e o.minimal
        | inr (p, (f, s, e, q, l)) ↦ absurd (ground (arith, e))
      ]
