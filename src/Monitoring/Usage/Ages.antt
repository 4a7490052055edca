-- ===== src/Monitoring/Usage/Ages.antt =====
-- app/services/monitoring/monitoring_service.py, get_hypervisor_usage: which of a source's records
-- the reported values are taken of. The records come newest first.
use v_machine.Prelude.{
  ℕ, ◌≤◌, ◌≡◌, String, Bool, true, false, Option, some, List, [], ◌∷◌, All, str_eq, if◌then◌else◌,
  ◌||◌, is_some, Listed,
}
use v_machine.Prelude.Dict.{Dict}
use v_machine.Database.{Holds}
use v_machine.Prelude.Exec.{Result, ok}
use v_machine.Openstack.Server.{Exception}
use v_machine.Monitoring.Usage.{
  Numbers, MetricRecord, HypervisorUsage, value_of, int_value, label_of,
}

module _ (numbers : Numbers) where
  abbrev Record : Type 0
  Record = MetricRecord numbers

  -- no record of the source is older
  abbrev pub IsOldest : String → List Record → Record → Type 0
  IsOldest source records m =
      All (λ r. str_eq r.source source ≡ true → m.recorded_at ≤ r.recorded_at) records

  -- no record of the source is newer
  abbrev pub IsNewest : String → List Record → Record → Type 0
  IsNewest source records m =
      All (λ r. str_eq r.source source ≡ true → r.recorded_at ≤ m.recorded_at) records

  -- a record of the list and of the source
  abbrev pub IsOf : String → List Record → Record → Type 0
  IsOf source records m = (m.source ≡ source) × Listed m records

  -- the last record of the source, if there is one
  last_of : String → List Record → Option Record → Option Record
  last_of source [] o = o
  last_of source (r ∷ records) o =
      last_of source records (if str_eq r.source source then some r else o)

  -- whether there is a record of the source
  abbrev pub appears : String → List Record → Bool
  appears source [] = false
  appears source (r ∷ records) = str_eq r.source source || appears source records

  -- what a search of a source's records has found: a record of the source, newest or oldest as `R` says,
  -- unless there is none
  abbrev pub Picked : (Record → Type 0) → String → List Record → Option Record → Type 0
  Picked R source records o =
      Holds (λ m. IsOf source records m × R m) o × (is_some o ≡ appears source records)

  -- where the values of a usage come from
  pub record Sourced (source : String) (cpu mem disk vms : List Record)
      (usage : HypervisorUsage numbers) : Type 0 where
    pub cpu_record : Option Record
    pub mem_record : Option Record
    pub disk_record : Option Record
    pub vm_record : Option Record
    pub cpu_newest : Picked (IsNewest source cpu) source cpu cpu_record
    pub mem_oldest : Picked (IsOldest source mem) source mem mem_record
    pub disk_oldest : Picked (IsOldest source disk) source disk disk_record
    pub vm_oldest : Picked (IsOldest source vms) source vms vm_record
    pub hypervisor : usage.hypervisor ≡ source
    pub cpu_usage : usage.cpu_usage ≡ value_of numbers cpu_record
    pub memory_usage : usage.memory_usage ≡ value_of numbers mem_record
    pub memory_total : label_of numbers "total_mb" mem_record ≡ ok usage.memory_total_mb
    pub memory_used : label_of numbers "used_mb" mem_record ≡ ok usage.memory_used_mb
    pub disk_usage : usage.disk_usage ≡ value_of numbers disk_record
    pub running_vms : usage.running_vms ≡ int_value numbers vm_record

  -- a usage whose labels could be read
  record Labelled (source : String) (cpu m d v : Option Record) (t u : Result Exception ℕ)
      (usage : HypervisorUsage numbers) : Type 0 where
    total : ℕ
    used : ℕ
    total_is : t ≡ ok total
    used_is : u ≡ ok used
    same : usage ≡ record {
      hypervisor = source;
      cpu_usage = value_of numbers cpu;
      memory_usage = value_of numbers m;
      memory_total_mb = total;
      memory_used_mb = used;
      disk_usage = value_of numbers d;
      running_vms = int_value numbers v;
    }
