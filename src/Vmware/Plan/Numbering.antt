-- ===== src/Vmware/Plan/Numbering.antt =====
-- The steps of one VM's migration: their numbers, their end, and the time they take.
use mathlib.Core.List.{append_assoc, append-nil, map-append}
use mathlib.Core.Path.{subst}
use native.Mathlib.Nat.{add-zero}
use v_machine.Prelude.{
  ℕ, ◌+◌, ◌≡◌, String, Option, none, some, List, [], ◌∷◌, ◌++◌, map, sum, length, arith, str_eq,
  if◌then◌else◌, length-append, sym, Bool-cases, inl, inr,
}
use v_machine.Vmware.Inventory.{VmSummary}
use v_machine.Vmware.Assessment.{NetworkMapping, DiskMapping, VmMapping, FlavorMatch, Step}
use v_machine.Vmware.Plan.Steps.{
  Draft, append_step, network_step, network_steps, disk_step, disk_steps, closing_steps,
  flavor_step, flavor_of, networks_of, disks_of, build_draft, build_steps,
}

-- The steps are numbered from `n` on, without a gap.
abbrev pub NumberedFrom : ℕ → List Step → Type 0
NumberedFrom n [] = Unit
NumberedFrom n (s ∷ ss) = (s.order ≡ n) × NumberedFrom (n + 1) ss

abbrev pub minutes : List Step → ℕ
minutes ss = sum (map (λ s. s.estimated_minutes) ss)

NumberedFrom-append :
    (n : ℕ) (ss ts : List Step)
    → NumberedFrom n ss
    → NumberedFrom (n + length ss) ts
    → NumberedFrom n (ss ++ ts)
NumberedFrom-append n [] ts h k = rw add-zero at k
NumberedFrom-append n (s ∷ ss) ts h k =
    (h.0, NumberedFrom-append (n + 1) ss ts h.1 (subst (λ m. NumberedFrom m ts) (omega arith) k))

minutes-append : (ss ts : List Step) → minutes (ss ++ ts) ≡ minutes ss + minutes ts
minutes-append [] ts = omega arith
minutes-append (s ∷ ss) ts = omega (arith, minutes-append ss ts)

-- The counter stands one past the last step.
record IsNumbered (d : Draft) : Type 0 where
  numbered : NumberedFrom 1 d.steps
  counter : d.order ≡ 1 + length d.steps

module _ (action description : String) (resource_id : Option String) (m : ℕ) (d : Draft) where
  append_step-IsNumbered :
      IsNumbered d → IsNumbered (append_step action description resource_id m d)
  unfolding append_step
  append_step-IsNumbered h = record {
    numbered = NumberedFrom-append 1 d.steps _ h.numbered (h.counter, tt);
    counter = rw length-append (omega (arith, h.counter));
  }

  minutes-append_step :
      minutes (append_step action description resource_id m d).steps ≡ minutes d.steps + m
  unfolding append_step
  minutes-append_step = rw minutes-append (omega arith)

abbrev pub actions : List Step → List String
actions ss = map (λ s. s.action) ss

abbrev pub network_action : NetworkMapping → String
network_action nm = if str_eq nm.match_type "not_found" then "create_network" else "verify_network"

abbrev pub network_minutes : NetworkMapping → ℕ
network_minutes nm = if str_eq nm.match_type "not_found" then 3 else 1

abbrev pub disk_minutes : DiskMapping → ℕ
disk_minutes dm = if dm.bootable then 2 else 1

-- `d'` is `d` with further numbered steps, of these actions and that many minutes.
record Extends (d d' : Draft) (acts : List String) (m : ℕ) : Type 0 where
  numbered : IsNumbered d → IsNumbered d'
  acted : actions d'.steps ≡ actions d.steps ++ acts
  timed : minutes d'.steps ≡ minutes d.steps + m

append_step-Extends :
    (action description : String) (resource_id : Option String) (m : ℕ) (d : Draft)
    → Extends d (append_step action description resource_id m d) (action ∷ []) m
append_step-Extends action description resource_id m d = record {
  numbered = append_step-IsNumbered action description resource_id m d;
  acted = unfold append_step in map-append (λ s. s.action) d.steps _;
  timed = minutes-append_step action description resource_id m d;
}

Extends-refl : (d : Draft) → Extends d d [] 0
Extends-refl d = record {
  numbered = λ h. h;
  acted = sym (append-nil (actions d.steps));
  timed = omega arith;
}

Extends-trans :
    {d e f : Draft} {xs ys : List String} {m n : ℕ}
    → Extends d e xs m
    → Extends e f ys n
    → Extends d f (xs ++ ys) (m + n)
Extends-trans {d} {xs = xs} {ys = ys} x y = record {
  numbered = λ h. y.numbered (x.numbered h);
  acted = rw (y.acted, x.acted) (append_assoc (actions d.steps) xs ys);
  timed = omega (arith, x.timed, y.timed);
}

network_step-Extends :
    (nm : NetworkMapping) (d : Draft)
    → Extends d (network_step nm d) (network_action nm ∷ []) (network_minutes nm)
unfolding network_step
network_step-Extends nm d = elim (Bool-cases (str_eq nm.match_type "not_found")) [
  | inl h ↦ rw (h, network_step) (append_step-Extends _ _ _ _ d)
  | inr h ↦ rw (h, network_step) (append_step-Extends _ _ _ _ d)
]

network_steps-Extends :
    (nms : List NetworkMapping) (d : Draft)
    → Extends d (network_steps nms d) (map network_action nms) (sum (map network_minutes nms))
unfolding network_steps
network_steps-Extends [] d = Extends-refl d
network_steps-Extends (nm ∷ nms) d =
    Extends-trans (network_step-Extends nm d) (network_steps-Extends nms (network_step nm d))

disk_steps-Extends :
    (dms : List DiskMapping) (d : Draft)
    → Extends d (disk_steps dms d) (map (λ dm. "create_volume") dms) (sum (map disk_minutes dms))
unfolding disk_steps disk_step
disk_steps-Extends [] d = Extends-refl d
disk_steps-Extends (dm ∷ dms) d =
    Extends-trans (append_step-Extends _ _ _ _ d) (disk_steps-Extends dms (disk_step dm d))

abbrev pub closing_actions : List String
closing_actions = "import_image" ∷ "create_server" ∷ "cleanup" ∷ []

closing_steps-Extends :
    (vm : VmSummary) (d : Draft) → Extends d (closing_steps vm d) closing_actions 21
unfolding closing_steps
closing_steps-Extends vm d =
    Extends-trans (append_step-Extends _ _ _ _ d)
      (Extends-trans (append_step-Extends _ _ _ _ _) (append_step-Extends _ _ _ _ _))

module _ {F : Type 0} where
  abbrev pub flavor_actions : Option (FlavorMatch F) → List String
  flavor_actions none = []
  flavor_actions (some f) = "verify_flavor" ∷ []

  flavor_step-Extends :
      (o : Option (FlavorMatch F)) (d : Draft)
      → Extends d (flavor_step o d) (flavor_actions o) (length (flavor_actions o))
  unfolding flavor_step
  flavor_step-Extends none d = Extends-refl d
  flavor_step-Extends (some f) d = append_step-Extends _ _ _ _ d

  -- The steps of a VM are numbered 1, 2, 3, … without a gap; they verify the flavor if one was
  -- found, deal with each network, create each volume, and end with import, server and cleanup;
  -- and they take 21 minutes, 1 for a flavor, 1 or 3 for each network and 1 or 2 for each disk.
  pub build_steps_lem :
      (vm : VmSummary) (mapping : Option (VmMapping F))
      → NumberedFrom 1 (build_steps vm mapping)
        × (actions (build_steps vm mapping)
            ≡ flavor_actions (flavor_of mapping)
              ++ (map network_action (networks_of mapping)
                  ++ (map (λ dm. "create_volume") (disks_of mapping) ++ closing_actions)))
        × (minutes (build_steps vm mapping)
            ≡ length (flavor_actions (flavor_of mapping))
              + sum (map network_minutes (networks_of mapping))
              + sum (map disk_minutes (disks_of mapping))
              + 21)
  unfolding build_steps build_draft
  build_steps_lem vm mapping =
      let d1 = flavor_step (flavor_of mapping) (record { steps = []; order = 1 }) in
      let d2 = network_steps (networks_of mapping) d1 in
      let d3 = disk_steps (disks_of mapping) d2 in
      let all = Extends-trans (flavor_step-Extends (flavor_of mapping) _) (
        Extends-trans (network_steps-Extends (networks_of mapping) d1) (
          Extends-trans (disk_steps-Extends (disks_of mapping) d2)
            (closing_steps-Extends vm d3))) in
      (
        (all.numbered (record { numbered = tt; counter = omega arith })).numbered,
        all.acted,
        omega (arith, all.timed),
      )
