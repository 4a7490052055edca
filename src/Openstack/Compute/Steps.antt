-- ===== src/Openstack/Compute/Steps.antt =====
-- app/services/openstack/compute_service.py: what the calls of OpenStack leave as it was, namely the
-- cache and, but for create_server, the servers that Nova was asked for.
use v_machine.Prelude.{
  ◌≡◌, String, Option, none, some, List, [], ◌∷◌, ◌++◌, ◌⊎◌, inl, inr, Bool-cases, Option-cases,
}
use v_machine.Prelude.Exec.{Result, ok, raise, ◌>>=◌}
use v_machine.Prelude.Hoare.{Triple, bind-Triple, weaken}
use v_machine.Openstack.Cached.{required}
use v_machine.Openstack.Client.{call, create, find_operation, recorded, measured}
use v_machine.Openstack.Calls.{
  compute_api, ComputeCall, create_server, Reply, ComputeSdk, ComputeWorld, ComputeAction,
}

-- the names of the servers that Nova was asked for
abbrev pub asks : ComputeCall → List String
asks (create_server kwargs) = kwargs.name ∷ []
asks _ = []

unfoldable pub asked : List ComputeCall → List String
asked [] = []
asked (c ∷ calls) = asks c ++ asked calls

module _ {S : Type 0} (sdk : ComputeSdk) where
  -- a condition on the cache and on the calls made
  module _ (J : S → List ComputeCall → Type 0) where
    abbrev pub Seen : ComputeWorld S → Type 0
    Seen w = J w.cache w.calls

    create_lem : Triple Seen (create sdk) (λ a. Seen) Seen
    unfolding create
    create_lem = record {
      after = λ w h. elim (Bool-cases w.connected) [
        | inl e ↦ rw e h
        | inr e ↦ elim (Bool-cases sdk.ready) [
          | inr n ↦ rw (e, n) h
          | inl y ↦ elim (Option-cases (sdk.constructed w.calls)) [
            | inl o ↦ rw (e, y, o) h
            | inr (m, o) ↦ rw (e, y, o) h
          ]
        ]
      ];
    }

    find_operation_lem : (c : ComputeCall) → Triple Seen (find_operation sdk c) (λ a. Seen) Seen
    unfolding find_operation
    find_operation_lem c = record {
      after = λ w h. elim (Bool-cases (sdk.has_service (compute_api.service_of c))) [
        | inr n ↦ rw n h
        | inl y ↦
            elim (Bool-cases
              (sdk.has_operation (compute_api.service_of c) (compute_api.operation_of c))) [
                | inl z ↦ rw (y, z) h
                | inr z ↦ rw (y, z) h
              ]
      ];
    }

  module _ (J K : S → List ComputeCall → Type 0) where
    -- a call that was made, or that failed before
    abbrev pub Either : ComputeWorld S → Type 0
    Either w = Seen J w ⊎ Seen K w

    recorded_lem :
        (c : ComputeCall)
        → ((s : S) (calls : List ComputeCall) → J s calls → K s (calls ++ c ∷ []))
        → (r : Result (String × String) (Reply c))
        → Triple (Seen J) (recorded sdk c r) (λ a. Seen K) Either
    unfolding recorded
    recorded_lem c step (ok a) = record { after = λ w h. step w.cache w.calls h }
    recorded_lem c step (raise e) = record { after = λ w h. inr (step w.cache w.calls h) }

    measured_lem :
        (c : ComputeCall)
        → ((s : S) (calls : List ComputeCall) → J s calls → K s (calls ++ c ∷ []))
        → Triple (Seen J) (measured sdk c) (λ a. Seen K) Either
    unfolding measured
    measured_lem c step = record {
      after = λ w h. (recorded_lem c step (sdk.outcome w.calls c)).after w h;
    }

    pub call_lem :
        (c : ComputeCall)
        → ((s : S) (calls : List ComputeCall) → J s calls → K s (calls ++ c ∷ []))
        → Triple (Seen J) (call sdk c) (λ a. Seen K) Either
    unfolding call
    call_lem c step =
        bind-Triple (create sdk) _ (weaken _ (λ a t q. q) (λ t. inl) (create_lem J)) (λ a.
          bind-Triple (find_operation sdk c) _
            (weaken _ (λ b t q. q) (λ t. inl) (find_operation_lem J c)) (λ b. measured_lem c step))

  -- the conditions that every call but create_server keeps
  abbrev pub Ignores : (S → List ComputeCall → Type 0) → Type 0
  Ignores J =
      (c : ComputeCall)
      → asks c ≡ []
      → (s : S) (calls : List ComputeCall) → J s calls
      → J s (calls ++ c ∷ [])

  module _ (J : S → List ComputeCall → Type 0) (ignores : Ignores J) where
    pub call_keeps :
        (c : ComputeCall) → asks c ≡ [] → Triple (Seen J) (call sdk c) (λ a. Seen J) (Seen J)
    call_keeps c e = weaken _ (λ a t q. q) (λ t. both) (call_lem J J c (ignores c e))
      where
        both : {P : Type 0} → P ⊎ P → P
        both (inl p) = p
        both (inr p) = p

    pub required_keeps :
        {A : Type 0} (message code : String) (o : Option A)
        → Triple (Seen J) (required message code o) (λ a. Seen J) (Seen J)
    unfolding required
    required_keeps message code none = record { after = λ w h. h }
    required_keeps message code (some a) = record { after = λ w h. h }

    -- a first step that keeps the condition, whose exception ends the method
    pub keeps_then :
        {A B : Type 0} {Q : B → ComputeWorld S → Type 0} {R : ComputeWorld S → Type 0}
        (m : ComputeAction S A) (f : A → ComputeAction S B)
        → ((w : ComputeWorld S) → Seen J w → R w)
        → Triple (Seen J) m (λ a. Seen J) (Seen J)
        → ((a : A) → Triple (Seen J) (f a) Q R)
        → Triple (Seen J) (m >>= f) Q R
    keeps_then m f ends h k = bind-Triple m f (weaken m (λ a t q. q) ends h) k
