-- ===== src/Monitoring/Alerts.antt =====
-- app/services/monitoring/monitoring_service.py, MonitoringService: alerts, the dashboard and the health
-- of the services, with app/models/alert_record.py and the schemas of
-- app/schemas/monitoring/monitoring.py. Times are numbers and are not printed; latencies are in
-- hundredths of a millisecond; a count is the length of what is selected.
use v_machine.Prelude.{
  ℕ, ◌+◌, String, Bool, false, Option, none, some, List, [], ◌∷◌, ◌++◌, map, length, str_eq,
  if◌then◌else◌,
}
use v_machine.Prelude.Exec.{ok, raise, Exec, pure, ◌>>=◌}
use v_machine.Openstack.Server.{Exception}
use v_machine.Database.{Database, not_found, found, where_equal}
use v_machine.Cache.Backend.{Backend}
use v_machine.Openstack.Calls.{ComputeSdk, ComputeWorld}
use v_machine.Openstack.Summary.{Item, model, mapping}
use v_machine.Openstack.Compute.{list_servers}

pub record AlertRecord : Type 0 where
  pub id : String
  pub severity : String
  pub title : String
  pub message : Option String
  pub source : String
  pub resource_type : Option String
  pub resource_id : Option String
  pub status : String
  pub created_at : ℕ
  pub resolved_at : Option ℕ

-- the arguments of create_alert
pub record AlertRequest : Type 0 where
  pub severity : String
  pub title : String
  pub source : String
  pub message : Option String
  pub resource_type : Option String
  pub resource_id : Option String

pub record AlertRecordSummary : Type 0 where
  pub id : String
  pub severity : String
  pub title : String
  pub message : Option String
  pub source : String
  pub resource_type : Option String
  pub resource_id : Option String
  pub status : String
  pub created_at : Option ℕ
  pub resolved_at : Option ℕ

pub record DashboardSummary : Type 0 where
  pub total_instances : ℕ
  pub active_instances : ℕ
  pub total_hypervisors : ℕ
  pub total_networks : ℕ
  pub total_volumes : ℕ
  pub active_alerts : ℕ
  pub total_storage_gb : ℕ
  pub used_storage_gb : ℕ

pub record ServiceHealthDetail : Type 0 where
  pub name : String
  pub status : String
  pub latency : Option ℕ
  pub details : Option String

abbrev pub serialize_alert : AlertRecord → AlertRecordSummary
serialize_alert a = record {
  id = a.id;
  severity = a.severity;
  title = a.title;
  message = a.message;
  source = a.source;
  resource_type = a.resource_type;
  resource_id = a.resource_id;
  status = a.status;
  created_at = some a.created_at;
  resolved_at = a.resolved_at;
}

-- AlertRecord(…), with the columns that have defaults
abbrev pub new_alert : AlertRequest → String → ℕ → AlertRecord
new_alert a id now = record {
  id = id;
  severity = a.severity;
  title = a.title;
  message = a.message;
  source = a.source;
  resource_type = a.resource_type;
  resource_id = a.resource_id;
  status = "active";
  created_at = now;
  resolved_at = none;
}

abbrev pub resolved : ℕ → AlertRecord → AlertRecord
resolved now a = record a { status = "resolved"; resolved_at = some now }

abbrev pub alert_not_found : Exception
alert_not_found = not_found "Alert not found" "alert_not_found"

-- getattr(s, "status", "") == "ACTIVE": a dict has no attribute `status`
unfoldable pub is_active : Item → Bool
is_active (mapping s) = false
is_active (model s) = elim s.status [ none ↦ false | some status ↦ str_eq status "ACTIVE" ]

unfoldable pub count_active : List Item → ℕ
count_active [] = 0
count_active (s ∷ servers) =
    let rest = count_active servers in if is_active s then rest + 1 else rest

module _ (db : Database AlertRecord) where
  unfoldable pub create_alert : AlertRequest → Exec Exception db.State AlertRecordSummary
  create_alert a = do row ← db.add (new_alert a); pure (serialize_alert row)

  unfoldable pub list_alerts :
      Option String → Option String → ℕ → Exec Exception db.State (List AlertRecordSummary)
  list_alerts status severity limit = do
    rows ← db.select (record {
      wheres = where_equal (λ a. a.status) status ++ where_equal (λ a. a.severity) severity;
      order_by = λ a. a.created_at;
      limit = some limit;
    })
    pure (map serialize_alert rows)

  -- `now` is the time of the resolution
  unfoldable pub resolve_alert : String → ℕ → Exec Exception db.State AlertRecordSummary
  resolve_alert alert_id now = do
    row ← found db alert_not_found alert_id
    row ← db.save alert_id (resolved now row)
    pure (serialize_alert row)

  unfoldable pub active_alerts : Exec Exception db.State ℕ
  active_alerts = do
    rows ← db.select (record {
      wheres = (λ a. str_eq a.status "active") ∷ [];
      order_by = λ a. a.created_at;
      limit = none;
    })
    pure (length rows)

  abbrev pub dashboard : ℕ → ℕ → ℕ → DashboardSummary
  dashboard total active alerts = record {
    total_instances = total;
    active_instances = active;
    total_hypervisors = 0;
    total_networks = 0;
    total_volumes = 0;
    active_alerts = alerts;
    total_storage_gb = 0;
    used_storage_gb = 0;
  }

  -- with a compute service, whose exceptions are passed over
  unfoldable pub get_dashboard_summary :
      (sdk : ComputeSdk) (cache : Backend (List Item))
      → ℕ
      → Bool
      → Exec Exception (db.State × ComputeWorld cache.State) DashboardSummary
  get_dashboard_summary sdk cache list_limit has_compute (s, w) =
      let (r, s') = active_alerts s in
      elim r [
        | raise e ↦ (raise e, (s', w))
        | ok alerts ↦
            let (servers, w') = list_servers sdk cache list_limit w in
            if has_compute
            then elim servers [
              | raise e ↦ (ok (dashboard 0 0 alerts), (s', w'))
              | ok items ↦ (ok (dashboard (length items) (count_active items) alerts), (s', w'))
            ]
            else (ok (dashboard 0 0 alerts), (s', w))
      ]

  -- The database is reported as working before it is asked, too.
  unfoldable pub get_service_health : Exec Exception db.State (List ServiceHealthDetail)
  get_service_health s =
      let (r, s') = db.select (record { wheres = []; order_by = λ a. 0; limit = some 1 }) s in
      let assumed : List ServiceHealthDetail =
        record { name = "api"; status = "ok"; latency = some 50; details = none }
        ∷ record { name = "database"; status = "ok"; latency = some 120; details = none }
        ∷ [] in
      elim r [
        | ok rows ↦ (
          ok (
              assumed
              ++ record { name = "database"; status = "ok"; latency = some 120; details = none }
                ∷ []),
          s',
        )
        | raise e ↦ (
          ok (
              assumed
              ++ record { name = "database"; status = "down"; latency = none; details = none }
                ∷ []),
          s',
        )
      ]
