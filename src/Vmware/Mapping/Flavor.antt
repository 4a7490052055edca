-- ===== src/Vmware/Mapping/Flavor.antt =====
-- app/services/vmware/mapping_engine.py, `_match_flavor`: the flavor nearest to a VM by a weighted
-- Euclidean distance, with a penalty for a flavor that is too small. The floats and their
-- operations are a parameter.
use v_machine.Prelude.{
  ℕ, Bool, ◌&&◌, ◌||◌, Option, none, some, List, [], ◌∷◌, max, leb, ltb, ◌==◌, if◌then◌else◌,
}
use v_machine.Prelude.Exec.{Result, ok, raise, Exec, pure, ◌>>=◌}
use v_machine.Vmware.Inventory.{VmSummary, VmHardware}
use v_machine.Vmware.Assessment.{FlavorMatch}
use v_machine.Vmware.Compatibility.Report.{or_empty, total_capacity}
use v_machine.Vmware.Mapping.Resources.{
  Error, value_error, OsFlavor, Engine, Openstack, get_flavors,
}

-- Python's floats, with the constants that the engine names.
pub record Floats : Type 1 where
  pub F : Type 0
  -- (a - b) / m, for integers
  pub quotient : ℕ → ℕ → ℕ → F
  pub square : F → F
  pub add : F → F → F
  pub mul : F → F → F
  pub sqrt : F → F
  pub lt : F → F → Bool
  pub infinity : F
  pub weight_cpu : F
  pub weight_ram : F
  pub weight_disk : F
  -- 1.5
  pub shortage : F
  -- round(max(0.0, 1.0 - x), 4)
  pub normalized : F → F

pub record Size : Type 0 where
  pub cpu : ℕ
  pub ram : ℕ
  pub disk : ℕ

-- vcpus, ram and disk, where all three are known
unfoldable pub size_of : OsFlavor → Option Size
size_of f = elim f.vcpus [
  | none ↦ none
  | some c ↦ elim f.ram [
    | none ↦ none
    | some r ↦ elim f.disk [ none ↦ none | some d ↦ some (record { cpu = c; ram = r; disk = d }) ]
  ]
]

-- the flavor is smaller than the target in some respect
abbrev pub falls_short : Size → Size → Bool
falls_short target f = ltb f.cpu target.cpu || (ltb f.ram target.ram || ltb f.disk target.disk)

abbrev pub suffices : Size → Size → Bool
suffices target f = leb target.cpu f.cpu && (leb target.ram f.ram && leb target.disk f.disk)

-- max(v for f in flavors if v is not None): ValueError if there is none
unfoldable pub max_known : (OsFlavor → Option ℕ) → List OsFlavor → Option ℕ
max_known field [] = none
max_known field (f ∷ fs) =
    let rest = max_known field fs in
    elim (field f) [ none ↦ rest | some v ↦ elim rest [ none ↦ some v | some w ↦ some (max v w) ] ]

-- max(…) or 1
unfoldable pub divisor : (OsFlavor → Option ℕ) → List OsFlavor → Result Error ℕ
divisor field flavors = elim (max_known field flavors) [
  | none ↦ raise value_error
  | some v ↦ ok (if v == 0 then 1 else v)
]

unfoldable pub target_size : VmHardware → Size
target_size hw = record { cpu = hw.cpu_count; ram = hw.memory_mb; disk = total_capacity hw.disks }

module _ (fl : Floats) where
  open fl use {F, quotient, square, add, mul, sqrt, lt}

  module _ (target largest : Size) where
    unfoldable pub distance : Size → F
    distance f =
        let norm_cpu = quotient target.cpu f.cpu largest.cpu in
        let norm_ram = quotient target.ram f.ram largest.ram in
        let norm_disk = quotient target.disk f.disk largest.disk in
        let d = sqrt (
          add (add (mul fl.weight_cpu (square norm_cpu)) (mul fl.weight_ram (square norm_ram)))
            (mul fl.weight_disk (square norm_disk))) in
        if falls_short target f then mul d fl.shortage else d

    -- the loop, with the best flavor and its distance so far
    unfoldable pub nearest :
        List OsFlavor → Option (OsFlavor × Size) → F → Option (OsFlavor × Size) × F
    nearest [] best best_score = (best, best_score)
    nearest (flavor ∷ flavors) best best_score =
        let skip = nearest flavors best best_score in
        elim (size_of flavor) [
          | none ↦ skip
          | some size ↦
              let take = nearest flavors (some (flavor, size)) (distance size) in
              if lt (distance size) best_score then take else skip
        ]

    unfoldable pub flavor_result : OsFlavor → Size → F → FlavorMatch F
    flavor_result flavor size best_score = record {
      flavor_id = or_empty flavor.id;
      flavor_name = or_empty flavor.name;
      score = fl.normalized best_score;
      vcpus = size.cpu;
      ram = size.ram;
      disk = size.disk;
      overprovisioned = suffices target size;
      underprovisioned = falls_short target size;
    }

    -- what follows the loop
    unfoldable pub report_best : Option (OsFlavor × Size) → F → Option (FlavorMatch F)
    report_best none best_score = none
    report_best (some (flavor, size)) best_score = some (flavor_result flavor size best_score)

    unfoldable pub choose : List OsFlavor → Option (FlavorMatch F)
    choose flavors = let out = nearest flavors none fl.infinity in report_best out.0 out.1

  -- the largest known vcpus, ram and disk; the three `max` calls in the order of the source
  unfoldable pub largest_sizes : List OsFlavor → Result Error Size
  largest_sizes flavors = elim (divisor (λ f. f.vcpus) flavors) [
    | raise e ↦ raise e
    | ok c ↦ elim (divisor (λ f. f.ram) flavors) [
      | raise e ↦ raise e
      | ok r ↦ elim (divisor (λ f. f.disk) flavors) [
        | raise e ↦ raise e
        | ok d ↦ ok (record { cpu = c; ram = r; disk = d })
      ]
    ]
  ]

  unfoldable pub match_in : Size → List OsFlavor → Result Error (Option (FlavorMatch F))
  match_in target [] = ok none
  match_in target (f ∷ fs) = elim (largest_sizes (f ∷ fs)) [
    | raise e ↦ raise e
    | ok largest ↦ ok (choose target largest (f ∷ fs))
  ]

  unfoldable pub match_flavor : Openstack → VmSummary → Exec Error Engine (Option (FlavorMatch F))
  match_flavor os vm = elim vm.hardware [
    | none ↦ pure none
    | some hw ↦ do flavors ← get_flavors os; λ e. (match_in (target_size hw) flavors, e)
  ]
