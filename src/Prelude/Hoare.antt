-- ===== src/Prelude/Hoare.antt =====
-- What holds after a method that may raise: one condition for the result, one for an exception.
use v_machine.Prelude.Exec.{Result, ok, raise, Exec, ◌>>=◌}

module _ {E S : Type 0} where
  abbrev pub Ended : {A : Type 0} → (A → S → Type 0) → (S → Type 0) → Result E A → S → Type 0
  Ended Q R (ok a) s = Q a s
  Ended Q R (raise e) s = R s

  pub record Triple {A : Type 0} (P : S → Type 0) (m : Exec E S A) (Q : A → S → Type 0)
      (R : S → Type 0) : Type 0 where
    pub after : (s : S) → P s → Ended Q R (m s).0 (m s).1

  module _ {A B : Type 0} {Mid : A → S → Type 0} {Q : B → S → Type 0} {R : S → Type 0} where
    then_Ended :
        (f : A → Exec E S B) (r : Result E A) (s : S)
        → Ended Mid R r s
        → ((a : A) → Triple (Mid a) (f a) Q R)
        → let out : Result E B × S = elim r [ ok a ↦ f a s | raise e ↦ (raise e, s) ] in
          Ended Q R out.0 out.1
    then_Ended f (ok a) s h k = (k a).after s h
    then_Ended f (raise e) s h k = h

    pub bind-Triple :
        {P : S → Type 0} (m : Exec E S A) (f : A → Exec E S B)
        → Triple P m Mid R
        → ((a : A) → Triple (Mid a) (f a) Q R)
        → Triple P (m >>= f) Q R
    bind-Triple m f hm hf = record { after = λ s p. then_Ended f (m s).0 (m s).1 (hm.after s p) hf }

  -- weaker conditions
  module _ {A : Type 0} {Q Q' : A → S → Type 0} {R R' : S → Type 0} where
    pub weaken_Ended :
        (r : Result E A) (s : S)
        → ((a : A) (t : S) → Q a t → Q' a t)
        → ((t : S) → R t → R' t)
        → Ended Q R r s
        → Ended Q' R' r s
    weaken_Ended (ok a) s hq hr h = hq a s h
    weaken_Ended (raise e) s hq hr h = hr s h

    pub weaken :
        {P : S → Type 0} (m : Exec E S A)
        → ((a : A) (t : S) → Q a t → Q' a t)
        → ((t : S) → R t → R' t)
        → Triple P m Q R
        → Triple P m Q' R'
    weaken m hq hr h = record { after = λ s p. weaken_Ended (m s).0 (m s).1 hq hr (h.after s p) }
