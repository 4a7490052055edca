-- ===== src/Openstack/Storage.antt =====
-- app/services/openstack/storage_service.py, StorageService, with app/models/storage_pool.py and the
-- schemas of app/schemas/orchestration/operations_automation.py. Times are numbers and are not
-- printed; the column `extra` is never used.
use v_machine.Prelude.{ℕ, String, Option, none, some, List, map}
use v_machine.Prelude.Exec.{Exec, pure, ◌>>=◌}
use v_machine.Openstack.Server.{Exception}
use v_machine.Database.{Database, not_found, found, delete_found}
use v_machine.Orchestration.Operations.{everything}

pub record StoragePool : Type 0 where
  pub id : String
  pub name : String
  pub description : Option String
  pub pool_type : String
  pub status : String
  pub total_capacity_gb : ℕ
  pub used_capacity_gb : ℕ
  pub replication_factor : ℕ
  pub created_at : ℕ
  pub updated_at : ℕ

pub record StoragePoolCreateRequest : Type 0 where
  pub name : String
  pub description : Option String
  pub pool_type : String
  pub total_capacity_gb : ℕ
  pub replication_factor : ℕ

pub record StoragePoolSummary : Type 0 where
  pub id : String
  pub name : String
  pub pool_type : String
  pub status : String
  pub total_capacity_gb : ℕ
  pub used_capacity_gb : ℕ
  pub replication_factor : ℕ
  pub created_at : Option ℕ
  pub operation_task_id : Option String

abbrev pub serialize_pool : StoragePool → StoragePoolSummary
serialize_pool p = record {
  id = p.id;
  name = p.name;
  pool_type = p.pool_type;
  status = p.status;
  total_capacity_gb = p.total_capacity_gb;
  used_capacity_gb = p.used_capacity_gb;
  replication_factor = p.replication_factor;
  created_at = some p.created_at;
  operation_task_id = none;
}

-- StoragePool(…), with the columns that have defaults
abbrev pub new_pool : StoragePoolCreateRequest → String → ℕ → StoragePool
new_pool payload id now = record {
  id = id;
  name = payload.name;
  description = payload.description;
  pool_type = payload.pool_type;
  status = "active";
  total_capacity_gb = payload.total_capacity_gb;
  used_capacity_gb = 0;
  replication_factor = payload.replication_factor;
  created_at = now;
  updated_at = now;
}

abbrev pub pool_not_found : Exception
pool_not_found = not_found "Storage pool not found" "storage_pool_not_found"

module _ (db : Database StoragePool) where
  unfoldable pub list_pools : Exec Exception db.State (List StoragePoolSummary)
  list_pools = do
    pools ← db.select (everything (λ p. p.created_at))
    pure (map serialize_pool pools)

  unfoldable pub get_pool : String → Exec Exception db.State StoragePoolSummary
  get_pool pool_id = do pool ← found db pool_not_found pool_id; pure (serialize_pool pool)

  unfoldable pub create_pool : StoragePoolCreateRequest → Exec Exception db.State StoragePoolSummary
  create_pool payload = do pool ← db.add (new_pool payload); pure (serialize_pool pool)

  unfoldable pub delete_pool : String → Exec Exception db.State (Unit {0})
  delete_pool pool_id = delete_found db pool_not_found pool_id
