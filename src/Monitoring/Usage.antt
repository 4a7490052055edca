-- ===== src/Monitoring/Usage.antt =====
-- app/services/monitoring/monitoring_service.py, MonitoringService: recorded metrics, and the usage of
-- hypervisors and projects that is made of them. Floats and json values are parameters. The set of
-- sources is a list without repetitions, whose order the source leaves open.
pub mod Ages
mod Tests
use v_machine.Prelude.{
  ℕ, String, Bool, true, false, Option, none, some, List, [], ◌∷◌, ◌++◌, map, str_eq, leb,
  if◌then◌else◌, ◌||◌,
}
use v_machine.Prelude.Exec.{Result, ok, raise, Exec, pure, ◌>>=◌}
use v_machine.Prelude.Dict.{Dict, lookup, insert, get_or}
use v_machine.Openstack.Server.{Exception}
use v_machine.Database.{Database, Query, where_equal}

-- Python's floats with 0.0 and int(…), and int(…) of a json value, which may raise
pub record Numbers : Type 1 where
  pub Float : Type 0
  pub zero_float : Float
  pub truncated : Float → ℕ
  pub Label : Type 0
  pub int_of : Label → Result Exception ℕ

module _ (numbers : Numbers) where
  pub record MetricRecord : Type 0 where
    pub id : String
    pub metric_name : String
    pub source : String
    pub value : numbers.Float
    pub unit : Option String
    pub labels : Option (Dict numbers.Label)
    pub project_id : Option String
    pub resource_id : Option String
    pub recorded_at : ℕ

  pub record HypervisorUsage : Type 0 where
    pub hypervisor : String
    pub cpu_usage : numbers.Float
    pub memory_usage : numbers.Float
    pub memory_total_mb : ℕ
    pub memory_used_mb : ℕ
    pub disk_usage : numbers.Float
    pub running_vms : ℕ

  pub record MetricValue : Type 0 where
    pub metric_name : String
    pub source : String
    pub value : numbers.Float
    pub unit : Option String
    pub labels : Option (Dict numbers.Label)
    pub project_id : Option String
    pub resource_id : Option String
    pub recorded_at : Option ℕ

  abbrev pub metric_value : MetricRecord → MetricValue
  metric_value r = record {
    metric_name = r.metric_name;
    source = r.source;
    value = r.value;
    unit = r.unit;
    labels = r.labels;
    project_id = r.project_id;
    resource_id = r.resource_id;
    recorded_at = some r.recorded_at;
  }

  -- {r.source: r for r in records}: a later record takes the place of an earlier one
  unfoldable pub by_source : List MetricRecord → Dict MetricRecord → Dict MetricRecord
  by_source [] d = d
  by_source (r ∷ records) d = by_source records (insert r.source r d)

  -- next((r for r in records if r.source == source), None)
  unfoldable pub first_of : String → List MetricRecord → Option MetricRecord
  first_of source [] = none
  first_of source (r ∷ records) = if str_eq r.source source then some r else first_of source records

  unfoldable pub is_listed : String → List String → Bool
  is_listed s [] = false
  is_listed s (t ∷ names) = str_eq t s || is_listed s names

  -- {r.source for r in records}
  unfoldable pub sources_of : List MetricRecord → List String
  sources_of [] = []
  sources_of (r ∷ records) =
      let rest = sources_of records in if is_listed r.source rest then rest else r.source ∷ rest

  abbrev pub value_of : Option MetricRecord → numbers.Float
  value_of none = numbers.zero_float
  value_of (some r) = r.value

  abbrev pub int_value : Option MetricRecord → ℕ
  int_value none = 0
  int_value (some r) = numbers.truncated r.value

  -- int(r.labels.get(name, 0)) if r and r.labels else 0
  unfoldable pub label_of : String → Option MetricRecord → Result Exception ℕ
  label_of name none = ok 0
  label_of name (some r) = elim r.labels [
    | none ↦ ok 0
    | some labels ↦ elim (lookup name labels) [ none ↦ ok 0 | some l ↦ numbers.int_of l ]
  ]

  unfoldable pub usage_of :
      List MetricRecord
      → Dict MetricRecord
      → Dict MetricRecord
      → Dict MetricRecord
      → String
      → Result Exception HypervisorUsage
  usage_of cpu_records mem_records disk_records vm_records source =
      let mem = lookup source mem_records in
      elim (label_of "total_mb" mem) [
        | raise e ↦ raise e
        | ok total ↦ elim (label_of "used_mb" mem) [
          | raise e ↦ raise e
          | ok used ↦ ok (record {
            hypervisor = source;
            cpu_usage = value_of (first_of source cpu_records);
            memory_usage = value_of mem;
            memory_total_mb = total;
            memory_used_mb = used;
            disk_usage = value_of (lookup source disk_records);
            running_vms = int_value (lookup source vm_records);
          })
        ]
      ]

  unfoldable pub usages :
      (String → Result Exception HypervisorUsage)
      → List String
      → Result Exception (List HypervisorUsage)
  usages f [] = ok []
  usages f (source ∷ sources) =
      let rest = usages f sources in
      elim (f source) [
        | raise e ↦ raise e
        | ok u ↦ elim rest [ raise e ↦ raise e | ok us ↦ ok (u ∷ us) ]
      ]

  -- the 50 newest records of a metric
  abbrev pub metric_query : String → Query MetricRecord
  metric_query name = record {
    wheres = (λ r. str_eq r.metric_name name) ∷ [];
    order_by = λ r. r.recorded_at;
    limit = some 50;
  }

  -- a record without a project is in none
  abbrev pub project_where : Option String → List (MetricRecord → Bool)
  project_where none = []
  project_where (some p) =
      if str_eq p ""
      then []
      else (λ r. elim r.project_id [ none ↦ false | some id ↦ str_eq id p ]) ∷ []

  abbrev pub since_where : Option ℕ → List (MetricRecord → Bool)
  since_where none = []
  since_where (some t) = (λ r. leb t r.recorded_at) ∷ []

  abbrev pub until_where : Option ℕ → List (MetricRecord → Bool)
  until_where none = []
  until_where (some t) = (λ r. leb r.recorded_at t) ∷ []

  module _ (db : Database MetricRecord) where
    unfoldable pub query_metrics :
        Option String
        → Option String
        → Option String
        → Option ℕ
        → Option ℕ
        → ℕ
        → Exec Exception db.State (List MetricValue)
    query_metrics metric_name source project_id since until limit = do
      rows ← db.select (record {
        wheres =
            where_equal (λ r. r.metric_name) metric_name
            ++ where_equal (λ r. r.source) source
            ++ project_where project_id
            ++ since_where since
            ++ until_where until;
        order_by = λ r. r.recorded_at;
        limit = some limit;
      })
      pure (map metric_value rows)

    unfoldable pub get_hypervisor_usage : Exec Exception db.State (List HypervisorUsage)
    get_hypervisor_usage = do
      cpu_records ← db.select (metric_query "hypervisor_cpu_usage")
      mem_records ← db.select (metric_query "hypervisor_memory_usage")
      disk_records ← db.select (metric_query "hypervisor_disk_usage")
      vm_records ← db.select (metric_query "hypervisor_running_vms")
      λ s. (
        usages
            (usage_of cpu_records (by_source mem_records []) (by_source disk_records [])
              (by_source vm_records []))
            (sources_of cpu_records),
        s,
      )
