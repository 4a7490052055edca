-- ===== src/Prelude/Ends.antt =====
-- What holds after a method that may raise, with the exception in view.
use mathlib.Core.Path.{◌≡◌, refl, subst}
use v_machine.Prelude.Exec.{Result, ok, raise, Exec, catch, ◌>>=◌}
use v_machine.Prelude.Hoare.{Ended}

module _ {E S : Type 0} where
  abbrev pub Ends : {A : Type 0} → (A → S → Type 0) → (E → S → Type 0) → Result E A → S → Type 0
  Ends Q R (ok a) s = Q a s
  Ends Q R (raise e) s = R e s

  -- nothing is asked
  pub any_Ends :
      {A : Type 0} (r : Result E A) (s : S) → Ends (λ a t. Unit {0}) (λ e t. Unit {0}) r s
  any_Ends (ok a) s = tt
  any_Ends (raise e) s = tt

  -- a condition of the state alone
  pub always_Ends :
      {A : Type 0} (P : S → Type 0) (r : Result E A) (s : S)
      → P s
      → Ends (λ a t. P t) (λ e t. P t) r s
  always_Ends P (ok a) s h = h
  always_Ends P (raise e) s h = h

  -- and a condition of the state besides
  pub both_Ends :
      {A : Type 0} (Q : A → S → Type 0) (R : E → S → Type 0) (P : S → Type 0) (r : Result E A)
      (s : S)
      → Ends Q R r s
      → P s
      → Ends (λ a t. Q a t × P t) (λ e t. P t) r s
  both_Ends Q R P (ok a) s h p = (h, p)
  both_Ends Q R P (raise e) s h p = p

  pub returned_Ends :
      {A : Type 0} (Q : A → S → Type 0) (R : E → S → Type 0) (r : Result E A) (s : S) (a : A)
      → Ends Q R r s
      → r ≡ ok a
      → Q a s
  returned_Ends Q R r s a h e = subst (λ x. Ends Q R x s) e h

  -- a condition of the state that both ways have
  pub either_Ends :
      {A : Type 0} (P : S → Type 0) (r : Result E A) (s : S)
      → Ends (λ a t. P t) (λ e t. P t) r s
      → P s
  either_Ends P (ok a) s h = h
  either_Ends P (raise e) s h = h

  pub Ended-Ends :
      {A : Type 0} (Q Q' : A → S → Type 0) (R : S → Type 0) (R' : E → S → Type 0) (r : Result E A)
      (s : S)
      → Ended Q R r s
      → ((a : A) (t : S) → Q a t → Q' a t)
      → ((e : E) (t : S) → R t → R' e t)
      → Ends Q' R' r s
  Ended-Ends Q Q' R R' (ok a) s h hq hr = hq a s h
  Ended-Ends Q Q' R R' (raise e) s h hq hr = hr e s h

  pub Ends-imp :
      {A : Type 0} (Q Q' : A → S → Type 0) (R R' : E → S → Type 0) (r : Result E A) (s : S)
      → ((a : A) (t : S) → Q a t → Q' a t)
      → ((e : E) (t : S) → R e t → R' e t)
      → Ends Q R r s
      → Ends Q' R' r s
  Ends-imp Q Q' R R' (ok a) s hq hr h = hq a s h
  Ends-imp Q Q' R R' (raise e) s hq hr h = hr e s h

  -- the exception is the one that was raised
  pub Ends-raise :
      {A : Type 0} (Q : A → S → Type 0) (R : E → S → Type 0) (r : Result E A) (s : S)
      → Ends Q R r s
      → Ends Q (λ e t. (r ≡ raise e) × R e t) r s
  Ends-raise Q R (ok a) s h = h
  Ends-raise Q R (raise e) s h = (refl, h)

  -- a weaker condition for an exception
  pub weaken_Ends :
      {A : Type 0} (Q : A → S → Type 0) (R R' : E → S → Type 0) (r : Result E A) (s : S)
      → ((e : E) (t : S) → R e t → R' e t)
      → Ends Q R r s
      → Ends Q R' r s
  weaken_Ends Q R R' r s k h = Ends-imp Q Q R R' r s (λ a t q. q) k h

  module _ {A B : Type 0} (Mid : A → S → Type 0) (Q : B → S → Type 0) (R : E → S → Type 0) where
    then_Ends :
        (f : A → Exec E S B) (r : Result E A) (s : S)
        → Ends Mid R r s
        → ((a : A) (t : S) → Mid a t → Ends Q R (f a t).0 (f a t).1)
        → let out : Result E B × S = elim r [ ok a ↦ f a s | raise e ↦ (raise e, s) ] in
          Ends Q R out.0 out.1
    then_Ends f (ok a) s h k = k a s h
    then_Ends f (raise e) s h k = h

    pub bind-Ends :
        (m : Exec E S A) (f : A → Exec E S B) (s : S)
        → Ends Mid R (m s).0 (m s).1
        → ((a : A) (t : S) → Mid a t → Ends Q R (f a t).0 (f a t).1)
        → let out = (m >>= f) s in Ends Q R out.0 out.1
    bind-Ends m f s h k = then_Ends f (m s).0 (m s).1 h k

  module _ {A : Type 0} (Mid : E → S → Type 0) (Q : A → S → Type 0) (R : E → S → Type 0) where
    handled_Ends :
        (h : E → Exec E S A) (r : Result E A) (s : S)
        → Ends Q Mid r s
        → ((e : E) (t : S) → Mid e t → Ends Q R (h e t).0 (h e t).1)
        → let out : Result E A × S = elim r [ ok a ↦ (ok a, s) | raise e ↦ h e s ] in
          Ends Q R out.0 out.1
    handled_Ends h (ok a) s p k = p
    handled_Ends h (raise e) s p k = k e s p

    pub catch-Ends :
        (m : Exec E S A) (h : E → Exec E S A) (s : S)
        → Ends Q Mid (m s).0 (m s).1
        → ((e : E) (t : S) → Mid e t → Ends Q R (h e t).0 (h e t).1)
        → let out = catch m h s in Ends Q R out.0 out.1
    catch-Ends m h s p k = handled_Ends h (m s).0 (m s).1 p k
