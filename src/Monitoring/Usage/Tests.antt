-- ===== src/Monitoring/Usage/Tests.antt =====
-- The usage of hypervisors on concrete inputs.
use v_machine.Prelude.{ℕ, String, none, List, [], ◌∷◌}
use v_machine.Prelude.Exec.{ok}
use v_machine.Monitoring.Usage.{Numbers, MetricRecord, HypervisorUsage}

abbrev whole : Numbers
whole = record { Float = ℕ; zero_float = 0; truncated = λ x. x; Label = ℕ; int_of = λ l. ok l }

abbrev sample : ℕ → ℕ → String → MetricRecord whole
sample value at source = record {
  id = "1";
  metric_name = "hypervisor_memory_usage";
  source = source;
  value = value;
  unit = none;
  labels = none;
  project_id = none;
  resource_id = none;
  recorded_at = at;
}

abbrev records : List (MetricRecord whole)
records = sample 70 30 "h1" ∷ sample 40 20 "h2" ∷ sample 10 10 "h1" ∷ []

abbrev usage : HypervisorUsage whole
usage = record {
  hypervisor = "h1";
  cpu_usage = 70;
  memory_usage = 10;
  memory_total_mb = 0;
  memory_used_mb = 0;
  disk_usage = 10;
  running_vms = 10;
}
