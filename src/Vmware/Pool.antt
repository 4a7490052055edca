-- ===== src/Vmware/Pool.antt =====
-- app/clients/vmware/pool.py: the pool of vCenter connections, used by one caller at a time.
-- `Vcenter` is what pyVmomi and vCenter answer. A connection object is known by its `id`, the order
-- of its creation; `now` is what a call reads of the clock, in seconds. Calls of Disconnect are a
-- log, and what they raise is dropped, as in the source.
pub mod Choice
pub mod Bounds
mod Tests
use v_machine.Prelude.{
  ℕ, ◌+◌, ◌-◌, ◌==◌, String, Bool, true, false, Option, none, some, List, [], ◌∷◌, ◌++◌, ltb,
  if◌then◌else◌, length,
}
use v_machine.Prelude.Exec.{Result, ok, raise}
use v_machine.Prelude.Text.{f_string}

pub record PooledConnection : Type 0 where
  pub id : ℕ
  pub created_at : ℕ
  pub last_used_at : ℕ
  pub use_count : ℕ

-- settings.vmware_ready; what SmartConnect raises for the connection of this id, if it raises; and
-- whether a connection answers at a time
pub record Vcenter : Type 0 where
  pub ready : Bool
  pub connect_error : ℕ → Option String
  pub answers : ℕ → ℕ → Bool

pub record ConnectionPool : Type 0 where
  pub max_pool_size : ℕ
  pub session_ttl : ℕ
  pub health_check_interval : ℕ
  pub pool : List PooledConnection
  pub last_health_check : ℕ
  pub conn_created : ℕ
  pub conn_reused : ℕ
  pub conn_reconnected : ℕ
  pub conn_failed : ℕ
  pub next_id : ℕ
  pub disconnected : List ℕ

-- AppException with the message, status 500 and code vmware_integration_error; or what the body of
-- a `with` raises
pub data Error : Type 0 where
  integration_error : String → Error
  body_error : String → Error

abbrev pub is_expired : ℕ → ℕ → PooledConnection → Bool
is_expired session_ttl now pc = ltb session_ttl (now - pc.created_at)

unfoldable pub disconnect_one : PooledConnection → ConnectionPool → ConnectionPool
disconnect_one pc p = record p { disconnected = p.disconnected ++ pc.id ∷ [] }

-- the loop of `_find_healthy`: the survivors, with the others disconnected
unfoldable pub expire :
    ℕ → List PooledConnection → ConnectionPool → List PooledConnection × ConnectionPool
expire now [] p = ([], p)
expire now (pc ∷ pcs) p =
    let gone = expire now pcs (disconnect_one pc p) in
    let (survivors, p') = expire now pcs p in
    if is_expired p.session_ttl now pc then gone else (pc ∷ survivors, p')

-- min(survivors, key=lambda c: c.use_count): the first of the smallest
unfoldable pub least_used : PooledConnection → List PooledConnection → PooledConnection
least_used best [] = best
least_used best (c ∷ cs) =
    let smaller = least_used c cs in
    let same = least_used best cs in if ltb c.use_count best.use_count then smaller else same

unfoldable pub find_healthy : ℕ → ConnectionPool → Option PooledConnection × ConnectionPool
find_healthy now p =
    let (survivors, p') = expire now p.pool p in
    (elim survivors [ [] ↦ none | c ∷ cs ↦ some (least_used c cs) ], record p' { pool = survivors })

-- the object in the pool is changed, so the entry of this id is
unfoldable pub replace : PooledConnection → List PooledConnection → List PooledConnection
replace pc [] = []
replace pc (c ∷ cs) = (if c.id == pc.id then pc else c) ∷ replace pc cs

unfoldable pub without : PooledConnection → List PooledConnection → List PooledConnection
without pc [] = []
without pc (c ∷ cs) = let rest = without pc cs in if c.id == pc.id then rest else c ∷ rest

abbrev pub used : ℕ → PooledConnection → PooledConnection
used now pc = record pc { use_count = pc.use_count + 1; last_used_at = now }

-- the section of `acquire` that holds the lock: a connection that is offered is counted as used
unfoldable pub search : ℕ → ConnectionPool → Option PooledConnection × ConnectionPool
search now p =
    let (healthy, p') = find_healthy now p in
    elim healthy [
      | none ↦ (none, p')
      | some pc ↦ (
        some (used now pc),
        record p' { pool = replace (used now pc) p'.pool; conn_reused = p'.conn_reused + 1 },
      )
    ]

unfoldable pub eject : PooledConnection → ConnectionPool → ConnectionPool
eject pc p = disconnect_one pc (record p { pool = without pc p.pool })

unfoldable pub disconnect_each : List PooledConnection → ConnectionPool → ConnectionPool
disconnect_each [] p = p
disconnect_each (pc ∷ pcs) p = disconnect_each pcs (disconnect_one pc p)

unfoldable pub disconnect_all : ConnectionPool → ConnectionPool
disconnect_all p = record (disconnect_each p.pool p) { pool = [] }

-- What a thread does to the pool without giving up the lock, or beside it where nothing of the pool is
-- touched: a search, a connection that is created, one that is dropped, by an ejection or by the health
-- check, or all that are disconnected.
pub data Section : Type 0 where
  searched created : ℕ → Section
  dropped : PooledConnection → Section
  disconnected_all : Section

module _ (vcenter : Vcenter) where
  -- the loop of `_health_check_if_needed` over a copy of the pool
  unfoldable pub check_health : ℕ → List PooledConnection → ConnectionPool → ConnectionPool
  check_health now [] p = p
  check_health now (pc ∷ pcs) p =
      let dropped = check_health now pcs (
        disconnect_one pc
          (record p { conn_reconnected = p.conn_reconnected + 1; pool = without pc p.pool })) in
      let kept = check_health now pcs p in if vcenter.answers pc.id now then kept else dropped

  unfoldable pub health_check_if_needed : ℕ → ConnectionPool → ConnectionPool
  health_check_if_needed now p =
      if ltb (now - p.last_health_check) p.health_check_interval
      then p
      else check_health now p.pool (record p { last_health_check = now })

  unfoldable pub create_new : ℕ → ConnectionPool → Result Error PooledConnection × ConnectionPool
  create_new now p =
      if vcenter.ready
      then elim (vcenter.connect_error p.next_id) [
        | some message ↦ (
          raise (integration_error (f_string ("Failed to connect to VMware: " ∷ message ∷ []))),
          record p { conn_failed = p.conn_failed + 1; next_id = p.next_id + 1 },
        )
        | none ↦
            let pc : PooledConnection = record {
              id = p.next_id;
              created_at = now;
              last_used_at = now;
              use_count = 1;
            } in
            (
              ok pc,
              record p {
                pool = if ltb (length p.pool) p.max_pool_size then p.pool ++ pc ∷ [] else p.pool;
                conn_created = p.conn_created + 1;
                next_id = p.next_id + 1;
              },
            )
      ]
      else (raise (integration_error "VMware settings are incomplete."), p)

  unfoldable pub acquire : ℕ → ConnectionPool → Result Error PooledConnection × ConnectionPool
  acquire now p =
      let (healthy, p') = search now (health_check_if_needed now p) in
      elim healthy [ none ↦ create_new now p' | some pc ↦ (ok pc, p') ]

  -- `with pool.connection() as si: body`; the body's result is `outcome`
  unfoldable pub connection :
      {A : Type 0}
      → (PooledConnection → Result String A)
      → ℕ
      → ConnectionPool
      → Result Error A × ConnectionPool
  connection body now p =
      let (acquired, p') = acquire now p in
      elim acquired [
        | raise e ↦ (raise e, p')
        | ok pc ↦ elim (body pc) [
          | ok a ↦ (ok a, p')
          | raise e ↦ (raise (body_error e), eject pc p')
        ]
      ]

  unfoldable pub enter : Section → ConnectionPool → ConnectionPool
  enter (searched now) p = (search now p).1
  enter (created now) p = (create_new now p).1
  enter (dropped pc) p = eject pc p
  enter disconnected_all p = disconnect_all p

  -- the sections of several threads, in the order in which they come
  unfoldable pub interleave : List Section → ConnectionPool → ConnectionPool
  interleave [] p = p
  interleave (x ∷ sections) p = interleave sections (enter x p)
