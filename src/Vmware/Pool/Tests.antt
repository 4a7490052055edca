-- ===== src/Vmware/Pool/Tests.antt =====
-- The pool of vCenter connections on concrete inputs.
use v_machine.Prelude.{
  ℕ, ◌≤◌, ◌≡◌, ◌==◌, refl, String, true, false, none, some, List, [], ◌∷◌, ◌++◌, All, arith, length,
}
use v_machine.Prelude.Exec.{Result, ok, raise}
use v_machine.Vmware.Pool.{
  PooledConnection, Vcenter, ConnectionPool, body_error, disconnect_one, expire, least_used,
  find_healthy, used, health_check_if_needed, search, acquire, connection, Section, searched,
  created, interleave,
}
use v_machine.Vmware.Pool.Choice.{connection_ejects}
use v_machine.Vmware.Pool.Bounds.{interleave-IsWithin}

abbrev vcenter : Vcenter
vcenter = record { ready = true; connect_error = λ id. none; answers = λ id now. true }

abbrev pooled : ℕ → ℕ → ℕ → PooledConnection
pooled id created_at use_count = record {
  id = id;
  created_at = created_at;
  last_used_at = created_at;
  use_count = use_count;
}

abbrev three_pooled : ConnectionPool
three_pooled = record {
  max_pool_size = 4;
  session_ttl = 600;
  health_check_interval = 60;
  pool = pooled 0 0 1 ∷ pooled 1 500 3 ∷ pooled 2 600 2 ∷ [];
  last_health_check = 690;
  conn_created = 3;
  conn_reused = 3;
  conn_reconnected = 0;
  conn_failed = 0;
  next_id = 3;
  disconnected = [];
}

offered : (find_healthy 700 three_pooled).0 ≡ some (pooled 2 600 2)
unfolding find_healthy expire disconnect_one least_used
offered = refl

acquired : (acquire vcenter 700 three_pooled).0 ≡ ok (used 700 (pooled 2 600 2))
unfolding acquire search health_check_if_needed find_healthy expire disconnect_one least_used
acquired = refl

abbrev failing : PooledConnection → Result String ℕ
failing pc = raise "session lost"

connection_ejects_example :
    let out = connection vcenter failing 700 three_pooled in
    (out.0 ≡ raise (body_error "session lost"))
    × All (λ c. (c.id == 2) ≡ false) out.1.pool
    × (out.1.disconnected ≡ (acquire vcenter 700 three_pooled).1.disconnected ++ 2 ∷ [])
connection_ejects_example =
    connection_ejects vcenter failing 700 three_pooled (used 700 (pooled 2 600 2)) "session lost"
      acquired refl

-- two threads that search, and then create
interleave-IsWithin_example :
    let sections : List Section = searched 700 ∷ searched 700 ∷ created 700 ∷ created 700 ∷ [] in
    let p' = interleave vcenter sections three_pooled in
    (p'.max_pool_size ≡ three_pooled.max_pool_size) × (length p'.pool ≤ three_pooled.max_pool_size)
interleave-IsWithin_example =
    interleave-IsWithin vcenter (searched 700 ∷ searched 700 ∷ created 700 ∷ created 700 ∷ [])
      three_pooled.max_pool_size three_pooled (refl, omega arith)
